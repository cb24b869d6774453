-- ===== src/Session/Send.antt =====
-- autobahn/wamp_session.ipp: settling promises, `on_disconnect` and `send_message`.
use autobahn_cpp_aw.Common.{
  ℕ, zero, suc, String, Bool, true, false, not, map, ◌&&◌, none, some, List, [], ◌∷◌, is_some,
}
use autobahn_cpp_aw.Exception.{
  Exception, ok, err, network_error, protocol_error, no_session_error, no_transport_error,
  promise_already_satisfied, ◌>>=◌, ◌>>◌, gets, skip, throw, throw_if, modify, catch,
}
use autobahn_cpp_aw.Msgpack.{Msgpack}
use autobahn_cpp_aw.Message.{Message}
use autobahn_cpp_aw.Promise.{Promise, failed, settle}
use autobahn_cpp_aw.Client.{Client}
use autobahn_cpp_aw.Session.{Session, Method, update}

module _ ⦃m : Msgpack⦄ ⦃c : Client⦄ where
  -- `set_value` and `set_exception` of the promises that the session owns
  unfoldable pub set_start : Promise → Method (Unit {0})
  unfolding settle
  set_start v s = elim (settle v s.session_start) [
    | ok p ↦ (ok tt, record s { session_start = p })
    | err e ↦ (err e, s)
  ]

  unfoldable pub set_stop : Promise → Method (Unit {0})
  unfolding settle
  set_stop v s = elim (settle v s.session_stop) [
    | ok p ↦ (ok tt, record s { session_stop = p })
    | err e ↦ (err e, s)
  ]

  unfoldable pub set_join : Promise → Method (Unit {0})
  unfolding settle
  set_join v s = elim (settle v s.session_join) [
    | ok p ↦ (ok tt, record s { session_join = p })
    | err e ↦ (err e, s)
  ]

  unfoldable pub set_leave : Promise → Method (Unit {0})
  unfolding settle
  set_leave v s = elim (settle v s.session_leave) [
    | ok p ↦ (ok tt, record s { session_leave = p })
    | err e ↦ (err e, s)
  ]

  -- and of a promise in a request
  unfoldable pub set_promise : ℕ → Promise → Method (Unit {0})
  unfolding settle
  set_promise a v s = elim (settle v (s.promises a)) [
    | ok p ↦ (ok tt, record s { promises = update s.promises a p })
    | err e ↦ (err e, s)
  ]

  -- `catch (boost::promise_already_satisfied&) {}`
  abbrev pub ignore_satisfied : Exception → Method (Unit {0})
  ignore_satisfied promise_already_satisfied = skip
  ignore_satisfied e = throw e

  -- one of the loops of `on_disconnect`, over the addresses of a table's promises
  unfoldable pub fail_all : Promise → List ℕ → Method (Unit {0})
  fail_all v [] s = (ok tt, s)
  fail_all v (a ∷ rest) s =
      let (r, s') = catch (set_promise a v) ignore_satisfied s in
      let later = fail_all v rest s' in elim r [ ok _ ↦ later | err e ↦ (err e, s') ]

  -- the promises of the requests in each table, which the loops leave as they are
  unfoldable pub subscribe_responses : Session → List ℕ
  subscribe_responses s = map (λ e. e.1.response) s.subscribe_requests

  unfoldable pub unsubscribe_responses : Session → List ℕ
  unsubscribe_responses s = map (λ e. e.1.response) s.unsubscribe_requests

  unfoldable pub register_responses : Session → List ℕ
  register_responses s = map (λ e. e.1.response) s.register_requests

  unfoldable pub unregister_responses : Session → List ℕ
  unregister_responses s = map (λ e. e.1.response) s.unregister_requests

  unfoldable pub call_results : Session → List ℕ
  call_results s = map (λ e. e.1.result) s.calls

  -- the loops and the two promises behind them
  unfoldable pub fail_loops :
      Promise → List ℕ → List ℕ → List ℕ → List ℕ → List ℕ → Method (Unit {0})
  fail_loops v subscribes unsubscribes registers unregisters results = do
    fail_all v subscribes
    fail_all v unsubscribes
    fail_all v registers
    fail_all v unregisters
    fail_all v results
    catch (set_join v) ignore_satisfied
    catch (set_leave v) ignore_satisfied

  -- the body of the outer `try`
  unfoldable pub fail_pending : Promise → Method (Unit {0})
  fail_pending v s =
      fail_loops v (subscribe_responses s) (unsubscribe_responses s) (register_responses s)
        (unregister_responses s) (call_results s) s

  unfoldable pub on_disconnect : Bool → String → Method (Unit {0})
  on_disconnect was_clean reason = do
    modify (λ s. record s { session_id = 0 })
    catch (fail_pending (failed (network_error reason)))
        (λ _. modify (λ s. record s { running = false }))
    throw_if (not was_clean) (network_error reason)

  -- `m_transport->send_message(message)`: on a failed write the transport calls `on_disconnect`
  unfoldable pub transmit : Message → Method (Unit {0})
  transmit message s = elim s.transport [
    | none ↦ (err no_transport_error, s)
    | some link ↦
        let (link', failure) = c.transmit link message in
        let s' = record s { transport = some link' } in
        elim failure [ none ↦ (ok tt, s') | some reason ↦ on_disconnect false reason s' ]
  ]

  abbrev pub is_joined : ℕ → Bool
  is_joined zero = false
  is_joined (suc n) = true

  unfoldable pub send_message : Message → Bool → Method (Unit {0})
  send_message message session_established = do
    running ← gets (λ s. s.running)
    throw_if (not running) (protocol_error "session not running")
    attached ← gets (λ s. is_some s.transport)
    throw_if (not attached) no_transport_error
    joined ← gets (λ s. is_joined s.session_id)
    throw_if (session_established && not joined) no_session_error
    transmit message
