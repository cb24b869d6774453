-- ===== src/Session/Sending.antt =====
-- When a message reaches the transport, and what a send that fails leaves behind.
use autobahn_cpp_aw.Common.{
  ℕ, String, Bool, true, false, not, ◌&&◌, none, some, ◌≡◌, arith, is_some, inl, inr, ap, ◌∙◌,
  Option-cases, Bool-cases, if◌then◌else◌,
}
use autobahn_cpp_aw.Exception.{
  Result, ok, err, network_error, protocol_error, no_session_error, no_transport_error,
}
use autobahn_cpp_aw.Msgpack.{Msgpack}
use autobahn_cpp_aw.Message.{Message}
use autobahn_cpp_aw.Promise.{failed}
use autobahn_cpp_aw.Client.{Client}
use autobahn_cpp_aw.Session.{Session}
use autobahn_cpp_aw.Session.Send.{transmit, send_message, is_joined}
use autobahn_cpp_aw.Session.Disconnect.{on_disconnect_lem, waiting, settled}

module _ ⦃m : Msgpack⦄ ⦃c : Client⦄ where
  -- the session after its transport has reported a failed write
  abbrev pub broken : String → Session → Session
  broken reason s = record (settled (failed (network_error reason)) (waiting s) s) {
    session_id = 0;
  }

  -- How a send may end: refused with nothing changed; written; or broken by the transport.
  pub data SendOutcome (message : Message) (established : Bool) (s : Session)
      (r : Result (Unit {0})) (s' : Session) : Type 0 where
    not_running :
        s.running ≡ false
        → r ≡ err (protocol_error "session not running")
        → s' ≡ s
        → SendOutcome message established s r s'
    not_attached :
        s.running ≡ true
        → s.transport ≡ none
        → r ≡ err no_transport_error
        → s' ≡ s
        → SendOutcome message established s r s'
    not_joined :
        s.running ≡ true
        → is_some s.transport ≡ true
        → established ≡ true
        → s.session_id ≡ 0
        → r ≡ err no_session_error
        → s' ≡ s
        → SendOutcome message established s r s'
    written :
        (link : c.Link)
        → s.running ≡ true
        → s.transport ≡ some link
        → (established && not (is_joined s.session_id)) ≡ false
        → (c.transmit link message).1 ≡ none
        → r ≡ ok tt
        → s' ≡ record s { transport = some (c.transmit link message).0 }
        → SendOutcome message established s r s'
    lost :
        (link : c.Link) (reason : String)
        → s.running ≡ true
        → s.transport ≡ some link
        → (established && not (is_joined s.session_id)) ≡ false
        → (c.transmit link message).1 ≡ some reason
        → r ≡ err (network_error reason)
        → s' ≡ broken reason (record s { transport = some (c.transmit link message).0 })
        → SendOutcome message established s r s'

  transmit-ok :
      (message : Message) (s : Session) (link : c.Link)
      → s.transport ≡ some link
      → (c.transmit link message).1 ≡ none
      → transmit message s ≡ (ok tt, record s { transport = some (c.transmit link message).0 })
  unfolding transmit
  transmit-ok message s link e f = ground arith

  transmit-lost :
      (message : Message) (s : Session) (link : c.Link) (reason : String)
      → s.transport ≡ some link
      → (c.transmit link message).1 ≡ some reason
      → transmit message s ≡ (
        err (network_error reason),
        broken reason (record s { transport = some (c.transmit link message).0 }),
      )
  unfolding transmit
  transmit-lost message s link reason e f = ground (
    arith,
    on_disconnect_lem false reason (record s { transport = some (c.transmit link message).0 }),
  )

  send_attached :
      (message : Message) (established : Bool) (s : Session) (link : c.Link)
      → s.running ≡ true
      → s.transport ≡ some link
      → send_message message established s ≡ (
          if established && not (is_joined s.session_id)
          then (err no_session_error, s)
          else transmit message s)
  unfolding send_message
  send_attached message established s link run e = ground arith

  not_joined-zero : (b : Bool) (n : ℕ) → (b && not (is_joined n)) ≡ true → (b ≡ true) × (n ≡ 0)
  not_joined-zero b n h = ground arith

  send_to :
      (message : Message) (established : Bool) (s : Session) (link : c.Link)
      → s.running ≡ true
      → s.transport ≡ some link
      → let (r, s') = send_message message established s in SendOutcome message established s r s'
  send_to message established s link run e =
      elim (Bool-cases (established && not (is_joined s.session_id))) [
        | inl refused ↦
            let (est, zero_id) = not_joined-zero established s.session_id refused in
            let eq : send_message message established s ≡ (err no_session_error, s) =
              send_attached message established s link run e ∙ rw refused in
            not_joined run (rw e) est zero_id (ap (λ p. p.0) eq) (ap (λ p. p.1) eq)
        | inr allowed ↦
            let eq : send_message message established s ≡ transmit message s =
              send_attached message established s link run e ∙ rw allowed in
            elim (Option-cases (c.transmit link message).1) [
              | inl fine ↦
                  let eq' = eq ∙ transmit-ok message s link e fine in
                  written link run e allowed fine (ap (λ p. p.0) eq') (ap (λ p. p.1) eq')
              | inr (reason, bad) ↦
                  let eq' = eq ∙ transmit-lost message s link reason e bad in
                  lost link reason run e allowed bad (ap (λ p. p.0) eq') (ap (λ p. p.1) eq')
            ]
      ]

  -- `send_message` ends in one of these ways: a session that is not running, has no
  -- transport, or is not joined where the message needs it refuses and changes nothing; else the
  -- message goes to the transport once, and either only the transport has changed or the failed
  -- write has failed all waiting futures and raised `network_error`.
  pub send_message-outcome :
      (message : Message) (established : Bool) (s : Session)
      → let (r, s') = send_message message established s in SendOutcome message established s r s'
  unfolding send_message
  send_message-outcome message established s = elim (Bool-cases s.running) [
    | inr stopped ↦ not_running stopped (ground arith) (ground arith)
    | inl run ↦ elim (Option-cases s.transport) [
      | inl e ↦ not_attached run e (ground arith) (ground arith)
      | inr (link, e) ↦ send_to message established s link run e
    ]
  ]
