-- ===== src/Rpc/ServiceNode/Threads/Requests.antt =====
-- What the two threads of src/rpc/RpcServiceNode.cpp send to the registry, in every interleaving.
use mini_rpc.Base.{
  ℕ, zero, suc, ◌+◌, ◌≤◌, ◌≡◌, ◌≢◌, refl, ap, sym, ◌∙◌, List, [], ◌∷◌, ◌++◌, append-nil, subst,
  Bool, true, false, if◌then◌else◌, replicate, arith,
}
use mini_rpc.Registry.{Request}
use mini_rpc.Rpc.ServiceNode.{
  ServiceNode, register_self, unregister_self, heartbeat_round, heartbeat_loop, life,
}
use mini_rpc.Rpc.ServiceNode.Threads.{
  Main, outside, registered, running, joining, stopped, gone, Beat, absent, testing, sending,
  waiting, returned, Threads, new, test_stop, beat_once, Step, registers, spawns, stops, joins,
  unregisters, tests, beats, wakes, Reach, here, next,
}

-- What a run of the threads goes together with: the heartbeat thread's place and the flag.
abbrev pub Fits : Main → Beat → Bool → Type 0
Fits outside b stop = (b ≡ absent) × (stop ≡ false)
Fits registered b stop = (b ≡ absent) × (stop ≡ false)
Fits running b stop = (b ≢ absent) × (stop ≡ false)
Fits joining b stop = (b ≢ absent) × (stop ≡ true)
Fits stopped b stop = (b ≡ returned) × (stop ≡ true)
Fits gone b stop = (b ≡ returned) × (stop ≡ true)

-- A heartbeat that the thread is about to send.
abbrev pub due : Beat → ℕ
due sending = 1
due b = 0

abbrev pub IsTimely : Bool → Beat → ℕ → Type 0
IsTimely false b late = late ≡ 0
IsTimely true b late = late + due b ≤ 1

module _ (n : ServiceNode) where
  -- The requests of a node's life up to where the caller stands, with `k` heartbeats.
  abbrev pub so_far : Main → ℕ → List Request
  so_far outside k = []
  so_far registered k = life (replicate k false) true n
  so_far running k = life (replicate k false) true n
  so_far joining k = life (replicate k false) true n
  so_far stopped k = life (replicate k false) true n
  so_far gone k = life (replicate k false) false n

  pub record Ordered (m : Main) (b : Beat) (stop : Bool) (sent : List Request) (late : ℕ)
      : Type 0 where
    pub count : ℕ
    pub requests : sent ≡ so_far m count
    pub fits : Fits m b stop
    pub timely : IsTimely stop b late

  abbrev pub IsOrdered : Threads → Type 0
  IsOrdered s = Ordered s.main s.beat s.stop s.sent s.late

  loop_beat :
      (k : ℕ)
      → heartbeat_loop (replicate k false) n ++ (heartbeat_round n ∷ [])
        ≡ heartbeat_loop (replicate (suc k) false) n
  unfolding heartbeat_loop
  loop_beat zero = refl
  loop_beat (suc k) = ap (heartbeat_round n ∷◌) (loop_beat k)

  life_beat :
      (k : ℕ)
      → life (replicate k false) true n ++ (heartbeat_round n ∷ [])
        ≡ life (replicate (suc k) false) true n
  unfolding life
  life_beat k =
      ap (λ xs. register_self n ∷ (xs ++ (heartbeat_round n ∷ []))) (append-nil _)
      ∙ ap (register_self n ∷◌) (loop_beat k ∙ sym (append-nil _))

  life_leave :
      (k : ℕ)
      → life (replicate k false) true n ++ (unregister_self n ∷ [])
        ≡ life (replicate k false) false n
  unfolding life
  life_leave k = ap (λ xs. register_self n ∷ (xs ++ (unregister_self n ∷ []))) (append-nil _)

  new-IsOrdered : IsOrdered new
  unfolding new
  new-IsOrdered = record { count = 0; requests = refl; fits = (refl, refl); timely = refl }

  registers-Ordered :
      (b : Beat) (stop : Bool) (sent : List Request) (late : ℕ)
      → Ordered outside b stop sent late
      → Ordered registered b stop (sent ++ (register_self n ∷ [])) late
  unfolding life heartbeat_loop
  registers-Ordered b stop sent late o = record {
    count = 0;
    requests = ap (λ xs. xs ++ (register_self n ∷ [])) o.requests;
    fits = o.fits;
    timely = o.timely;
  }

  spawns-Ordered :
      (b : Beat) (stop : Bool) (sent : List Request) (late : ℕ)
      → Ordered registered b stop sent late
      → Ordered running testing stop sent late
  spawns-Ordered b true sent late o = absurd (cc (o.fits.1))
  spawns-Ordered b false sent late o = record {
    count = o.count;
    requests = o.requests;
    fits = ((λ e. cc (e)), refl);
    timely = o.timely;
  }

  stops-Ordered :
      (b : Beat) (stop : Bool) (sent : List Request) (late : ℕ)
      → Ordered running b stop sent late
      → Ordered joining b true sent late
  stops-Ordered b true sent late o = absurd (cc (o.fits.1))
  stops-Ordered b false sent late o = record {
    count = o.count;
    requests = o.requests;
    fits = (o.fits.0, refl);
    timely = bound b o.timely;
  }
    where
      bound : (b : Beat) → late ≡ 0 → late + due b ≤ 1
      bound absent e = omega arith
      bound testing e = omega arith
      bound sending e = omega arith
      bound waiting e = omega arith
      bound returned e = omega arith

  joins-Ordered :
      (stop : Bool) (sent : List Request) (late : ℕ)
      → Ordered joining returned stop sent late
      → Ordered stopped returned stop sent late
  joins-Ordered stop sent late o = record {
    count = o.count;
    requests = o.requests;
    fits = (refl, o.fits.1);
    timely = o.timely;
  }

  unregisters-Ordered :
      (b : Beat) (stop : Bool) (sent : List Request) (late : ℕ)
      → Ordered stopped b stop sent late
      → Ordered gone b stop (sent ++ (unregister_self n ∷ [])) late
  unregisters-Ordered b stop sent late o = record {
    count = o.count;
    requests = ap (λ xs. xs ++ (unregister_self n ∷ [])) o.requests ∙ life_leave o.count;
    fits = o.fits;
    timely = o.timely;
  }

  -- The thread is there, and has not returned, in two of the caller's places only.
  moves-Fits :
      (m : Main) (b b' : Beat) (stop : Bool)
      → b ≢ absent
      → b ≢ returned
      → b' ≢ absent
      → Fits m b stop
      → Fits m b' stop
  moves-Fits outside b b' stop here_ busy here' f = absurd (here_ f.0)
  moves-Fits registered b b' stop here_ busy here' f = absurd (here_ f.0)
  moves-Fits running b b' stop here_ busy here' f = (here', f.1)
  moves-Fits joining b b' stop here_ busy here' f = (here', f.1)
  moves-Fits stopped b b' stop here_ busy here' f = absurd (busy f.0)
  moves-Fits gone b b' stop here_ busy here' f = absurd (busy f.0)

  -- The only places where a heartbeat is sent.
  beats-requests :
      (m : Main) (stop : Bool) (sent : List Request) (k : ℕ)
      → Fits m sending stop
      → sent ≡ so_far m k
      → sent ++ (heartbeat_round n ∷ []) ≡ so_far m (suc k)
  beats-requests outside stop sent k f e = cc (f.0)
  beats-requests registered stop sent k f e = cc (f.0)
  beats-requests running stop sent k f e = ap (λ xs. xs ++ (heartbeat_round n ∷ [])) e ∙ life_beat k
  beats-requests joining stop sent k f e = ap (λ xs. xs ++ (heartbeat_round n ∷ [])) e ∙ life_beat k
  beats-requests stopped stop sent k f e = cc (f.0)
  beats-requests gone stop sent k f e = cc (f.0)

  beats-IsTimely :
      (stop : Bool) (late : ℕ)
      → IsTimely stop sending late
      → IsTimely stop waiting (if stop then late + 1 else late)
  beats-IsTimely false late t = t
  beats-IsTimely true late t = omega arith

  beats-Ordered :
      (m : Main) (stop : Bool) (sent : List Request) (late : ℕ)
      → Ordered m sending stop sent late
      → Ordered m waiting stop (sent ++ (heartbeat_round n ∷ [])) (if stop then late + 1 else late)
  beats-Ordered m stop sent late o = record {
    count = suc o.count;
    requests = beats-requests m stop sent o.count o.fits o.requests;
    fits = moves-Fits m sending waiting stop (λ e. cc (e)) (λ e. cc (e)) (λ e. cc (e)) o.fits;
    timely = beats-IsTimely stop late o.timely;
  }

  tests-Ordered :
      (m : Main) (stop : Bool) (sent : List Request) (late : ℕ)
      → Ordered m testing stop sent late
      → Ordered m (if stop then returned else sending) stop sent late
  tests-Ordered m true sent late o = record {
    count = o.count;
    requests = o.requests;
    fits = moves-Fits m testing returned true (λ e. cc (e)) (λ e. cc (e)) (λ e. cc (e)) o.fits;
    timely = o.timely;
  }
  tests-Ordered m false sent late o = record {
    count = o.count;
    requests = o.requests;
    fits = moves-Fits m testing sending false (λ e. cc (e)) (λ e. cc (e)) (λ e. cc (e)) o.fits;
    timely = o.timely;
  }

  wakes-IsTimely :
      (stop : Bool) (late : ℕ) → IsTimely stop waiting late → IsTimely stop testing late
  wakes-IsTimely false late t = t
  wakes-IsTimely true late t = t

  wakes-Ordered :
      (m : Main) (stop : Bool) (sent : List Request) (late : ℕ)
      → Ordered m waiting stop sent late
      → Ordered m testing stop sent late
  wakes-Ordered m stop sent late o = record {
    count = o.count;
    requests = o.requests;
    fits = moves-Fits m waiting testing stop (λ e. cc (e)) (λ e. cc (e)) (λ e. cc (e)) o.fits;
    timely = wakes-IsTimely stop late o.timely;
  }

  at_main :
      (s : Threads) (m : Main) → s.main ≡ m → IsOrdered s → Ordered m s.beat s.stop s.sent s.late
  at_main s m e o = subst (λ x. Ordered x s.beat s.stop s.sent s.late) e o

  at_beat :
      (s : Threads) (b : Beat) → s.beat ≡ b → IsOrdered s → Ordered s.main b s.stop s.sent s.late
  at_beat s b e o = subst (λ x. Ordered s.main x s.stop s.sent s.late) e o

  Step-IsOrdered : (s t : Threads) → Step n s t → IsOrdered s → IsOrdered t
  unfolding test_stop beat_once
  Step-IsOrdered s t (registers e is) o =
      subst IsOrdered (sym is) (registers-Ordered _ _ _ _ (at_main s outside e o))
  Step-IsOrdered s t (spawns e is) o =
      subst IsOrdered (sym is) (spawns-Ordered _ _ _ _ (at_main s registered e o))
  Step-IsOrdered s t (stops e is) o =
      subst IsOrdered (sym is) (stops-Ordered _ _ _ _ (at_main s running e o))
  Step-IsOrdered s t (joins e done is) o = subst IsOrdered (sym is) (
      subst (λ b. Ordered stopped b s.stop s.sent s.late) (sym done)
        (joins-Ordered _ _ _
          (subst (λ b. Ordered joining b s.stop s.sent s.late) done (at_main s joining e o))))
  Step-IsOrdered s t (unregisters e is) o =
      subst IsOrdered (sym is) (unregisters-Ordered _ _ _ _ (at_main s stopped e o))
  Step-IsOrdered s t (tests e is) o =
      subst IsOrdered (sym is) (tests-Ordered _ _ _ _ (at_beat s testing e o))
  Step-IsOrdered s t (beats e is) o =
      subst IsOrdered (sym is) (beats-Ordered _ _ _ _ (at_beat s sending e o))
  Step-IsOrdered s t (wakes e is) o =
      subst IsOrdered (sym is) (wakes-Ordered _ _ _ _ (at_beat s waiting e o))

  pub Reach-IsOrdered : {s : Threads} → Reach n new s → IsOrdered s
  Reach-IsOrdered here = new-IsOrdered
  Reach-IsOrdered (next {t = s} {u = t} r st) = Step-IsOrdered s t st (Reach-IsOrdered r)
