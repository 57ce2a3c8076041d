-- ===== src/Rpc/ServiceNode/Threads/Join.antt =====
-- `stopHeartbeat` of src/rpc/RpcServiceNode.cpp: what was sent when it waits for the thread, and that it gets it.
use mini_rpc.Base.{
  ℕ, ◌+◌, ◌≤◌, ◌≡◌, refl, ap, [], ◌∷◌, subst, true, if◌then◌else◌, arith, length, length-append,
}
use mini_rpc.Rpc.ServiceNode.{ServiceNode, heartbeat_round}
use mini_rpc.Rpc.ServiceNode.Threads.{
  joining, stopped, Beat, absent, testing, sending, waiting, returned, Threads, new, test_stop,
  beat_once, Step, joins, tests, beats, wakes, Reach, here, next,
}
use mini_rpc.Rpc.ServiceNode.Threads.Requests.{Fits, Reach-IsOrdered}

module _ (n : ServiceNode) where
  after : {s t u : Threads} → Step n s t → Reach n t u → Reach n s u
  after st here = next here st
  after st (next r st') = next (after st r) st'

  -- The wait in `join` ends in a state like `s`, with at most `m` requests more.
  abbrev Joined : ℕ → Threads → Type 0
  Joined m s =
      (t : Threads) × Reach n s t × (t.main ≡ stopped) × (length t.sent ≤ length s.sent + m)

  join_after :
      (m k : ℕ) {s t : Threads}
      → Step n s t
      → length t.sent + m ≤ length s.sent + k
      → Joined m t
      → Joined k s
  join_after m k st le (u, r, e, bound) = (u, after st r, e, omega arith)

  at_returned : (s : Threads) → s.main ≡ joining → s.beat ≡ returned → Joined 0 s
  at_returned s m b = (record s { main = stopped }, next here (joins m b refl), refl, omega arith)

  at_testing : (s : Threads) → s.main ≡ joining → s.stop ≡ true → s.beat ≡ testing → Joined 0 s
  unfolding test_stop
  at_testing s m st b =
      join_after 0 0 (tests b refl) (omega arith)
        (at_returned (test_stop s) m (ap (λ x. if x then returned else sending) st))

  at_waiting : (s : Threads) → s.main ≡ joining → s.stop ≡ true → s.beat ≡ waiting → Joined 0 s
  at_waiting s m st b =
      join_after 0 0 (wakes b refl) (omega arith)
        (at_testing (record s { beat = testing }) m st refl)

  at_sending : (s : Threads) → s.main ≡ joining → s.stop ≡ true → s.beat ≡ sending → Joined 1 s
  unfolding beat_once
  at_sending s m st b =
      join_after 0 1 (beats b refl) (omega (arith, length-append s.sent (heartbeat_round n ∷ [])))
        (at_waiting (beat_once n s) m st refl)

  more : {s : Threads} → Joined 0 s → Joined 1 s
  more (t, r, e, bound) = (t, r, e, omega arith)

  join_from :
      (b : Beat) (s : Threads) → s.beat ≡ b → s.main ≡ joining → Fits joining b s.stop → Joined 1 s
  join_from absent s e m f = absurd (f.0 refl)
  join_from testing s e m f = more (at_testing s m f.1 e)
  join_from sending s e m f = at_sending s m f.1 e
  join_from waiting s e m f = more (at_waiting s m f.1 e)
  join_from returned s e m f = more (at_returned s m e)

  -- In every reachable state in which stopHeartbeat waits for the heartbeat thread, there are steps to
  -- a state in which the wait has ended, with at most one request more.
  pub join_ends :
      {s : Threads}
      → Reach n new s
      → s.main ≡ joining
      → (t : Threads) × Reach n s t × (t.main ≡ stopped) × (length t.sent ≤ length s.sent + 1)
  join_ends {s} r m =
      join_from s.beat s refl m (subst (λ x. Fits x s.beat s.stop) m (Reach-IsOrdered n r).fits)
