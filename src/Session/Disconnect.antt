-- ===== src/Session/Disconnect.antt =====
-- What `on_disconnect` does to the futures that users hold.
use autobahn_cpp_aw.Common.{
  ℕ, String, Bool, false, ◌&&◌, List, [], ◌∷◌, ◌++◌, ◌≡◌, refl, arith, ap, ◌∙◌, if◌then◌else◌,
  contains,
}
use autobahn_cpp_aw.Exception.{ok, err, network_error}
use autobahn_cpp_aw.Msgpack.{Msgpack}
use autobahn_cpp_aw.Promise.{Promise, pending, failed, is_pending}
use autobahn_cpp_aw.Client.{Client}
use autobahn_cpp_aw.Session.{Session, update}
use autobahn_cpp_aw.Session.Send.{
  fail_all, fail_loops, fail_pending, on_disconnect, subscribe_responses, unsubscribe_responses,
  register_responses, unregister_responses, call_results, set_promise, set_join, set_leave,
}

module _ ⦃m : Msgpack⦄ ⦃c : Client⦄ where
  abbrev pub settle_if_pending : Promise → Promise → Promise
  settle_if_pending v pending = v
  settle_if_pending v p = p

  settle_if_pending-if : (v p : Promise) → settle_if_pending v p ≡ (if is_pending p then v else p)
  settle_if_pending-if v p = ground arith

  abbrev pub settle_one : Promise → ℕ → (ℕ → Promise) → ℕ → Promise
  settle_one v a promises = if is_pending (promises a) then update promises a v else promises

  abbrev pub settle_all : Promise → List ℕ → (ℕ → Promise) → ℕ → Promise
  settle_all v [] promises = promises
  settle_all v (a ∷ rest) promises = settle_all v rest (settle_one v a promises)

  fail_all-eq :
      (v : Promise) (addresses : List ℕ) (s : Session)
      → fail_all v addresses s ≡ (ok tt, record s { promises = settle_all v addresses s.promises })
  unfolding fail_all set_promise
  fail_all-eq v [] s = refl
  fail_all-eq v (a ∷ rest) s = ground (
    arith,
    fail_all-eq v rest s,
    fail_all-eq v rest (record s { promises = update s.promises a v }),
  )

  pub settle_all-at :
      (v : Promise) (addresses : List ℕ) (promises : ℕ → Promise) (a : ℕ)
      → is_pending v ≡ false
      → settle_all v addresses promises a
        ≡ (if is_pending (promises a) && contains a addresses then v else promises a)
  settle_all-at v [] promises a h = ground arith
  settle_all-at v (b ∷ rest) promises a h =
      ground (arith, settle_all-at v rest (settle_one v b promises) a h)

  settle_all-append :
      (v : Promise) (xs ys : List ℕ) (promises : ℕ → Promise)
      → settle_all v (xs ++ ys) promises ≡ settle_all v ys (settle_all v xs promises)
  settle_all-append v [] ys promises = refl
  settle_all-append v (x ∷ xs) ys promises = settle_all-append v xs ys (settle_one v x promises)

  -- the promises of all requests that are on their way
  abbrev pub waiting : Session → List ℕ
  waiting s =
      subscribe_responses s
      ++ (unsubscribe_responses s
          ++ (register_responses s ++ (unregister_responses s ++ call_results s)))

  abbrev pub settled : Promise → List ℕ → Session → Session
  settled v addresses s = record s {
    promises = settle_all v addresses s.promises;
    session_join = settle_if_pending v s.session_join;
    session_leave = settle_if_pending v s.session_leave;
  }

  fail_loops-eq :
      (v : Promise) (l1 l2 l3 l4 l5 : List ℕ) (s : Session)
      → fail_loops v l1 l2 l3 l4 l5 s ≡ (ok tt, settled v (l1 ++ (l2 ++ (l3 ++ (l4 ++ l5)))) s)
  unfolding fail_loops set_join set_leave
  fail_loops-eq v l1 l2 l3 l4 l5 s =
      let s1 = record s { promises = settle_all v l1 s.promises } in
      let s2 = record s { promises = settle_all v l2 s1.promises } in
      let s3 = record s { promises = settle_all v l3 s2.promises } in
      let s4 = record s { promises = settle_all v l4 s3.promises } in
      simp settle_all-append (
        ground (
          arith,
          fail_all-eq v l1 s,
          fail_all-eq v l2 s1,
          fail_all-eq v l3 s2,
          fail_all-eq v l4 s3,
          fail_all-eq v l5 s4,
        ))

  fail_pending-eq :
      (v : Promise) (s : Session) → fail_pending v s ≡ (ok tt, settled v (waiting s) s)
  unfolding fail_pending
  fail_pending-eq v s = fail_loops-eq v _ _ _ _ _ s

  waiting-left : (s : Session) → waiting (record s { session_id = 0 }) ≡ waiting s
  unfolding subscribe_responses unsubscribe_responses register_responses unregister_responses
      call_results
  waiting-left s = refl

  -- The whole effect of a lost or closed connection: the session is not joined any more; each
  -- promise of a request on its way, and those of `join` and `leave`, fail with the reason where
  -- nothing had settled them; nothing else of the session changes, `running` and the tables of
  -- requests included; and exactly a disconnect that is not clean raises `network_error`.
  pub on_disconnect_lem :
      (was_clean : Bool) (reason : String) (s : Session)
      → on_disconnect was_clean reason s ≡ (
        (if was_clean then ok tt else err (network_error reason)),
        record (settled (failed (network_error reason)) (waiting s) s) { session_id = 0 },
      )
  unfolding on_disconnect
  on_disconnect_lem was_clean reason s =
      let left = record s { session_id = 0 } in
      rw (← waiting-left s) (ground (arith, fail_pending-eq (failed (network_error reason)) left))

  -- every promise of a request, by its address
  pub on_disconnect-at :
      (was_clean : Bool) (reason : String) (s : Session) (a : ℕ)
      → (on_disconnect was_clean reason s).1.promises a ≡ (
          if is_pending (s.promises a) && contains a (waiting s)
          then failed (network_error reason)
          else s.promises a)
  on_disconnect-at was_clean reason s a =
      rw (on_disconnect_lem was_clean reason s)
        (settle_all-at (failed (network_error reason)) (waiting s) s.promises a refl)

  -- What a lost or closed connection does to every future: that of a request in a table fails with
  -- the reason, also where requests share it, and so do those of `join` and `leave`, each unless it
  -- was settled before; every other future of a request, and those of `start` and `stop`, keep what
  -- they have. So no request in a table, no `join` and no `leave` is left pending.
  pub on_disconnect-promises :
      (was_clean : Bool) (reason : String) (s : Session)
      → let s' = (on_disconnect was_clean reason s).1 in
        let v = failed (network_error reason) in
        ((a : ℕ)
          → s'.promises a
            ≡ (if is_pending (s.promises a) && contains a (waiting s) then v else s.promises a))
        × (s'.session_join ≡ (if is_pending s.session_join then v else s.session_join))
        × (s'.session_leave ≡ (if is_pending s.session_leave then v else s.session_leave))
        × (s'.session_start ≡ s.session_start)
        × (s'.session_stop ≡ s.session_stop)
  on_disconnect-promises was_clean reason s =
      let eq = on_disconnect_lem was_clean reason s in
      let v = failed (network_error reason) in
      (
        on_disconnect-at was_clean reason s,
        ap (λ o. o.1.session_join) eq ∙ settle_if_pending-if v s.session_join,
        ap (λ o. o.1.session_leave) eq ∙ settle_if_pending-if v s.session_leave,
        ap (λ o. o.1.session_start) eq,
        ap (λ o. o.1.session_stop) eq,
      )
