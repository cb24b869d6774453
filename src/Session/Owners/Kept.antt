-- ===== src/Session/Owners/Kept.antt =====
-- The requests that a pending promise still has.
pub mod Replies
pub mod Incoming
pub mod Running
pub mod Landing
pub mod Reach
pub mod Single
use autobahn_cpp_aw.Common.{
  ℕ, zero, suc, ◌+◌, ◌≤◌, String, Bool, true, false, not, ◌&&◌, ◌||◌, Option, none, some, List, [],
  ◌∷◌, ◌++◌, map, ◌≡◌, refl, sym, arith, ◌==◌, if◌then◌else◌, contains, ap, ◌∙◌,
}
use autobahn_cpp_aw.Common.Table.{
  Table, find, erase, emplace, find-append, find-erase, find-emplace_ne,
}
use autobahn_cpp_aw.Exception.{Result, ok, err, network_error}
use autobahn_cpp_aw.Msgpack.{Msgpack}
use autobahn_cpp_aw.Message.{Message}
use autobahn_cpp_aw.Promise.{pending, failed}
use autobahn_cpp_aw.Client.{Client}
use autobahn_cpp_aw.Session.{
  Session, Task, SubscribeRequest, UnsubscribeRequest, RegisterRequest, UnregisterRequest, Call,
}
use autobahn_cpp_aw.Session.Send.{on_disconnect, send_message}
use autobahn_cpp_aw.Session.Disconnect.{waiting, settled, on_disconnect_lem, on_disconnect-at}
use autobahn_cpp_aw.Session.Sending.{
  SendOutcome, not_running, not_attached, not_joined, written, lost, broken, send_message-outcome,
}
use autobahn_cpp_aw.Session.Owners.{
  tally, waits, subscribers, unsubscribers, registrars, unregistrars, callers,
}

-- no two entries of a table have the same key
unfoldable pub Unique {ℓ} : {V : Type ℓ} → Table V → Type ℓ
Unique [] = Unit
Unique ((k, v) ∷ t) = (find k t ≡ none) × Unique t

module _ {V : Type 0} where
  pub Unique-erase : (k : ℕ) (t : Table V) → Unique t → Unique (erase k t)
  unfolding Unique
  Unique-erase k [] u = u
  Unique-erase k ((j, v) ∷ t) u = ground (arith, Unique-erase k t u.1, find-erase j k t)

  Unique-snoc :
      (k : ℕ) (v : V) (t : Table V) → find k t ≡ none → Unique t → Unique (t ++ (k, v) ∷ [])
  unfolding Unique
  Unique-snoc k v [] h u = (refl, tt)
  Unique-snoc k v ((j, w) ∷ t) h u =
      ground (arith, Unique-snoc k v t, find-append j t ((k, v) ∷ []))

  pub Unique-emplace : (k : ℕ) (v : V) (t : Table V) → Unique t → Unique (emplace k v t)
  Unique-emplace k v t u = ground (arith, Unique-snoc k v t)

  erase-absent : (k : ℕ) (t : Table V) → find k t ≡ none → erase k t ≡ t
  erase-absent k [] h = refl
  erase-absent k ((j, v) ∷ t) h = ground (arith, erase-absent k t)

  module _ (f : V → ℕ) (a : ℕ) where
    -- 1 for an entry that has the promise at `a`
    abbrev pub held : Option V → ℕ
    held none = 0
    held (some v) = if a == f v then 1 else 0

    tally-erase-Unique :
        (k : ℕ) (t : Table V)
        → Unique t
        → tally f a (λ id b. false) t ≤ tally f a (λ id b. false) (erase k t) + held (find k t)
    unfolding Unique tally
    tally-erase-Unique k [] u = omega arith
    tally-erase-Unique k ((j, v) ∷ t) u =
        ground (arith, tally-erase-Unique k t u.1, erase-absent k t)

    tally-snoc :
        (k : ℕ) (v : V) (t : Table V)
        → tally f a (λ id b. false) (t ++ (k, v) ∷ []) ≡ tally f a (λ id b. false) t + held (some v)
    unfolding tally
    tally-snoc k v [] = ground arith
    tally-snoc k v ((j, w) ∷ t) = ground (arith, tally-snoc k v t)

    -- what a table with distinct keys keeps of `count`
    abbrev pub Holds : (Table V → ℕ) → Type 0
    Holds count =
        ((k : ℕ) (t : Table V) → Unique t → count t ≤ count (erase k t) + held (find k t))
        × ((k : ℕ) (v : V) (t : Table V)
            → find k t ≡ none
            → count t + held (some v) ≤ count (emplace k v t))

    tally-emplace_new :
        (k : ℕ) (v : V) (t : Table V)
        → find k t ≡ none
        → tally f a (λ id b. false) t + held (some v) ≤ tally f a (λ id b. false) (emplace k v t)
    tally-emplace_new k v t h = ground (arith, tally-snoc k v t)

    pub tally-Holds : Holds (tally f a (λ id b. false))
    tally-Holds = (tally-erase-Unique, tally-emplace_new)

abbrev pub none_bad : ℕ → ℕ → Bool
none_bad id b = false

module _ ⦃m : Msgpack⦄ ⦃c : Client⦄ where
  -- in each table, no two requests wait under one id
  abbrev pub UniqueKeys : Session → Type 0
  UniqueKeys s =
      Unique s.subscribe_requests
      × Unique s.unsubscribe_requests
      × Unique s.register_requests
      × Unique s.unregister_requests
      × Unique s.calls

module _ ⦃m : Msgpack⦄ ⦃c : Client⦄ (a : ℕ) where
  pub subscribers-Holds : Holds (λ (r : SubscribeRequest). r.response) a (subscribers a none_bad)
  unfolding subscribers
  subscribers-Holds = tally-Holds (λ (r : SubscribeRequest). r.response) a

  pub unsubscribers-Holds :
      Holds (λ (r : UnsubscribeRequest). r.response) a (unsubscribers a none_bad)
  unfolding unsubscribers
  unsubscribers-Holds = tally-Holds (λ (r : UnsubscribeRequest). r.response) a

  pub registrars-Holds : Holds (λ (r : RegisterRequest). r.response) a (registrars a none_bad)
  unfolding registrars
  registrars-Holds = tally-Holds (λ (r : RegisterRequest). r.response) a

  pub unregistrars-Holds : Holds (λ (r : UnregisterRequest). r.response) a (unregistrars a none_bad)
  unfolding unregistrars
  unregistrars-Holds = tally-Holds (λ (r : UnregisterRequest). r.response) a

  pub callers-Holds : Holds (λ (r : Call). r.result) a (callers a none_bad)
  unfolding callers
  callers-Holds = tally-Holds (λ (r : Call). r.result) a

  -- Keys stay distinct, and where the promise at `a` is pending in the end, it was all the time, and no
  -- request that waits for it has gone.
  abbrev pub Leaves : Session → Session → Type 0
  Leaves s t =
      UniqueKeys s
      → UniqueKeys t
        × (t.promises a ≡ pending
            → (s.promises a ≡ pending) × (waits a none_bad s ≤ waits a none_bad t))

  pub Leaves-refl : (s : Session) → Leaves s s
  Leaves-refl s u = (u, λ h. (h, omega arith))

  pub Leaves-trans : (s t v : Session) → Leaves s t → Leaves t v → Leaves s v
  Leaves-trans s t v k l u =
      let (u', p) = k u in
      let (u'', p') = l u' in
      (u'', λ h. let (h', w') = p' h in let (h'', w) = p h' in (h'', omega arith))

  on_disconnect-pending :
      (was_clean : Bool) (reason : String) (s : Session)
      → (on_disconnect was_clean reason s).1.promises a ≡ pending
      → s.promises a ≡ pending
  on_disconnect-pending was_clean reason s h = ground (arith, on_disconnect-at was_clean reason s a)

  pub on_disconnect-Leaves :
      (was_clean : Bool) (reason : String) (s : Session)
      → Leaves s (on_disconnect was_clean reason s).1
  on_disconnect-Leaves was_clean reason s u =
      let eq = on_disconnect_lem was_clean reason s in
      (rw eq u, λ h. (on_disconnect-pending was_clean reason s h, rw eq (omega arith)))

  outcome-Leaves :
      (message : Message) (b : Bool) (s t : Session) (r : Result (Unit {0}))
      → SendOutcome message b s r t
      → Leaves s t
  outcome-Leaves message b s t r (not_running _ _ e) = rw e (Leaves-refl s)
  outcome-Leaves message b s t r (not_attached _ _ _ e) = rw e (Leaves-refl s)
  outcome-Leaves message b s t r (not_joined _ _ _ _ _ e) = rw e (Leaves-refl s)
  outcome-Leaves message b s t r (written link _ att _ _ _ e) = rw e (Leaves-refl s)
  outcome-Leaves message b s t r (lost link reason _ att _ _ _ e) =
      let u = record s { transport = some (c.transmit link message).0 } in
      rw (e ∙ sym (ap (λ p. p.1) (on_disconnect_lem false reason u)))
        (on_disconnect-Leaves false reason u)

  pub send_message-Leaves :
      (message : Message) (b : Bool) (s : Session) → Leaves s (send_message message b s).1
  send_message-Leaves message b s =
      outcome-Leaves message b s _ _ (send_message-outcome message b s)
