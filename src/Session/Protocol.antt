-- ===== src/Session/Protocol.antt =====
-- What a session gives to its transport, whatever its users and its router do.
pub mod Requests
pub mod Incoming
pub mod Steps
use mathlib.Core.Option.{map as map_option}
use mathlib.Core.List.{append_assoc}
use autobahn_cpp_aw.Common.{
  ℕ, String, Bool, true, false, Option, none, some, List, [], ◌∷◌, ◌++◌, ◌≡◌, refl, sym, ap, ◌∙◌,
  arith, is_some,
}
use autobahn_cpp_aw.Exception.{Result}
use autobahn_cpp_aw.Msgpack.{Msgpack, Object}
use autobahn_cpp_aw.Message.{Message}
use autobahn_cpp_aw.Message.Outgoing.{IsOutgoing, no_arguments, arguments, kw_arguments}
use autobahn_cpp_aw.Client.{Client}
use autobahn_cpp_aw.Session.{Session, Task, authenticate_task}
use autobahn_cpp_aw.Session.Send.{send_message, on_disconnect}
use autobahn_cpp_aw.Session.Sending.{
  SendOutcome, not_running, not_attached, not_joined, written, lost, send_message-outcome,
}
use autobahn_cpp_aw.Session.Disconnect.{on_disconnect_lem}
use autobahn_cpp_aw.Session.Owners.Controls.{has_message, message_of}
use autobahn_cpp_aw.Session.Ordering.{All, transmit_all}

module _ ⦃m : Msgpack⦄ ⦃c : Client⦄ where
  -- a handler whose message a client may send
  abbrev pub IsReady : Task → Type 0
  IsReady t = has_message t ≡ true → IsOutgoing (message_of t)

  -- Every handler in the queue is ready, and the transport, which was `o`, has since taken nothing
  -- but messages that a client may send.
  pub record Speaks (o : Option c.Link) (s : Session) : Type 0 where
    pub ready : All IsReady s.tasks
    pub sent : List Message
    pub outgoing : All IsOutgoing sent
    pub fed : s.transport ≡ map_option (transmit_all sent) o

  All-snoc :
      {A : Type 0} (P : A → Type 0) (xs : List A) (x : A) → All P xs → P x → All P (xs ++ x ∷ [])
  All-snoc P [] x all last = (last, tt)
  All-snoc P (y ∷ xs) x (first, all) last = (first, All-snoc P xs x all last)

  All-without :
      {A : Type 0} (P : A → Type 0) (xs ys : List A) (x : A)
      → All P (xs ++ x ∷ ys)
      → P x × All P (xs ++ ys)
  All-without P [] ys x (first, all) = (first, all)
  All-without P (y ∷ xs) ys x (first, all) =
      let (found, rest) = All-without P xs ys x all in (found, (first, rest))

  transmit_all-snoc :
      (messages : List Message) (message : Message) (link : c.Link)
      → transmit_all (messages ++ message ∷ []) link
        ≡ (c.transmit (transmit_all messages link) message).0
  transmit_all-snoc [] message link = refl
  transmit_all-snoc (x ∷ messages) message link =
      transmit_all-snoc messages message (c.transmit link x).0

  -- a session with the same queue and the same transport
  same-Speaks :
      (o : Option c.Link) (s t : Session)
      → t.tasks ≡ s.tasks
      → t.transport ≡ s.transport
      → Speaks o s
      → Speaks o t
  same-Speaks o s t queue at h = record {
    ready = rw queue h.ready;
    sent = h.sent;
    outgoing = h.outgoing;
    fed = at ∙ h.fed;
  }

  map_option-some :
      {A B : Type 0} (f : A → B) (o : Option A) (b : B)
      → some b ≡ map_option f o
      → (a : A) × (o ≡ some a) × (b ≡ f a)
  map_option-some f none b e = absurd cc
  map_option-some f (some a) b e = (a, refl, cc)

  fed-Speaks :
      (o : Option c.Link) (s t : Session) (link : c.Link) (message : Message)
      → IsOutgoing message
      → s.transport ≡ some link
      → t.transport ≡ some (c.transmit link message).0
      → t.tasks ≡ s.tasks
      → Speaks o s
      → Speaks o t
  fed-Speaks o s t link message out at at' queue h =
      let (first, from, taken) = map_option-some (transmit_all h.sent) o link (sym at ∙ h.fed) in
      record {
        ready = rw queue h.ready;
        sent = h.sent ++ message ∷ [];
        outgoing = All-snoc IsOutgoing h.sent message h.outgoing out;
        fed =
            at'
            ∙ ap (λ l. some (c.transmit l message).0) taken
            ∙ ap some (sym (transmit_all-snoc h.sent message first))
            ∙ ap (map_option (transmit_all (h.sent ++ message ∷ []))) (sym from);
      }

  outcome-Speaks :
      (message : Message) (b : Bool) (o : Option c.Link) (s t : Session) (r : Result (Unit {0}))
      → IsOutgoing message
      → SendOutcome message b s r t
      → Speaks o s
      → Speaks o t
  outcome-Speaks message b o s t r out (not_running _ _ e) h = rw e h
  outcome-Speaks message b o s t r out (not_attached _ _ _ e) h = rw e h
  outcome-Speaks message b o s t r out (not_joined _ _ _ _ _ e) h = rw e h
  outcome-Speaks message b o s t r out (written link _ at _ _ _ e) h =
      fed-Speaks o s t link message out at (rw e refl) (rw e refl) h
  outcome-Speaks message b o s t r out (lost link reason _ at _ _ _ e) h =
      fed-Speaks o s t link message out at (rw e refl) (rw e refl) h

  pub send_message-Speaks :
      (o : Option c.Link) (message : Message) (b : Bool) (s : Session)
      → IsOutgoing message
      → Speaks o s
      → Speaks o (send_message message b s).1
  send_message-Speaks o message b s out h =
      outcome-Speaks message b o s _ _ out (send_message-outcome message b s) h

  pub on_disconnect-Speaks :
      (o : Option c.Link) (b : Bool) (reason : String) (s : Session)
      → Speaks o s
      → Speaks o (on_disconnect b reason s).1
  on_disconnect-Speaks o b reason s h =
      same-Speaks o s _ (ap (λ p. p.1.tasks) (on_disconnect_lem b reason s))
        (ap (λ p. p.1.transport) (on_disconnect_lem b reason s)) h
