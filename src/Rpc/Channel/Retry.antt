-- ===== src/Rpc/Channel/Retry.antt =====
-- The loop of attempts of `RpcChannel::CallMethod`: how many there are, and under which numbers.
use mini_rpc.Base.{
  ℕ, zero, suc, ◌≤◌, ◌≡◌, refl, subst, ap, List, [], ◌∷◌, Bool, true, false, Option, none, some,
  inl, inr, arith, add_size, Bool-cases, Option-cases,
}
use mathlib.Core.Option
use mini_rpc.Base.Text.{Text}
use mini_rpc.Rpc.Envelope.{Protobuf}
use mini_rpc.Rpc.Channel.{Channel, close, Caller, Progress}
use mini_rpc.Rpc.Channel.Call.{
  Attempt, Outcome, waited, after_wait, after_send, attempt, is_timeout, with_seqs, retry,
  retry_all, attempts,
}

-- The sequence numbers of `k` attempts from `seq` on.
abbrev pub numbers : ℕ → ℕ → List ℕ
numbers zero seq = []
numbers (suc k) seq = seq ∷ numbers k (add_size seq 1)

-- One attempt: one number, and the next one in the channel.
abbrev Once : ℕ → Option Outcome → Type 0
Once seq none = Unit
Once seq (some o) = (o.seqs ≡ seq ∷ []) × (o.channel.next_seq ≡ add_size seq 1)

-- At most `n` retries, under consecutive numbers; a timeout is reported when all are used.
abbrev pub Tried : ℕ → ℕ → Option Outcome → Type 0
Tried n seq none = Unit
Tried n seq (some o) =
    (k : ℕ) × (k ≤ n) × (o.seqs ≡ numbers (suc k) seq) × (is_timeout o.result ≡ true → k ≡ n)

module _ (pb : Protobuf) (parses : Text → Bool) where
  waited-Once :
      (ch : Channel) (seq : ℕ) (p : Progress)
      → ch.next_seq ≡ add_size seq 1
      → Once seq (waited pb parses ch seq p)
  waited-Once ch seq p e = elim (Option-cases p.result) [
    | inl h ↦ rw h tt
    | inr (r, h) ↦ rw h (refl, e)
  ]

  after_wait-Once :
      (ch : Channel) (seq : ℕ) (p : Option Progress)
      → ch.next_seq ≡ add_size seq 1
      → Once seq (after_wait pb parses ch seq p)
  after_wait-Once ch seq none e = tt
  after_wait-Once ch seq (some p) e = waited-Once ch seq p e

  after_send-Once :
      (ch : Channel) (caller : Caller) (seq : ℕ) (env : Attempt) (sent : Option (Bool × List ℕ))
      → ch.next_seq ≡ add_size seq 1
      → Once seq (after_send pb parses ch caller seq env sent)
  unfolding after_send close
  after_send-Once ch caller seq env none e = tt
  after_send-Once ch caller seq env (some (false, taken)) e = (refl, e)
  after_send-Once ch caller seq env (some (true, taken)) e = after_wait-Once ch seq _ e

  attempt-Once :
      (body : Text) (ch : Channel) (caller : Caller) (env : Attempt)
      → Once ch.next_seq (attempt pb parses body ch caller env)
  unfolding attempt
  attempt-Once body ch caller env = after_send-Once _ _ _ env _ refl

  Once-Tried : (seq : ℕ) (o : Option Outcome) → Once seq o → Tried zero seq o
  Once-Tried seq none h = tt
  Once-Tried seq (some o) (seqs, next) = (zero, omega arith, seqs, λ t. refl)

  with_seqs-Tried :
      (n seq : ℕ) (rest : Option Outcome)
      → Tried n (add_size seq 1) rest
      → Tried (suc n) seq (Option.map (with_seqs (seq ∷ [])) rest)
  with_seqs-Tried n seq none h = tt
  with_seqs-Tried n seq (some o) (k, le, e, all) =
      (suc k, omega arith, ap (seq ∷◌) e, λ t. ap suc (all t))

  retry-Tried :
      (n seq : ℕ) (again : Channel → Caller → Option Outcome) (o : Outcome)
      → Once seq (some o)
      → Tried n (add_size seq 1) (again o.channel o.caller)
      → Tried (suc n) seq (retry pb parses again o)
  unfolding retry
  retry-Tried n seq again o (seqs, next) h = elim (Bool-cases (is_timeout o.result)) [
    | inl e ↦ rw (e, seqs) (with_seqs-Tried n seq _ h)
    | inr e ↦ rw e (zero, omega arith, seqs, λ t. grind (arith, t, e))
  ]

  retry_all-Tried :
      (n seq : ℕ) (again : Channel → Caller → Option Outcome) (o : Option Outcome)
      → Once seq o
      → ((ch : Channel) (caller : Caller) → Tried n ch.next_seq (again ch caller))
      → Tried (suc n) seq (retry_all pb parses again o)
  unfolding retry_all
  retry_all-Tried n seq again none h more = tt
  retry_all-Tried n seq again (some o) h more =
      retry-Tried n seq again o h
        (subst (λ s. Tried n s (again o.channel o.caller)) h.1 (more o.channel o.caller))

  -- A call with n retries that ends has made at most n + 1 attempts, numbered consecutively from the
  -- channel's next sequence number modulo 2^64, and where it ends with a timeout it has made all of
  -- them.
  pub attempts-Tried :
      (n : ℕ) (body : Text) (envs : List Attempt) (ch : Channel) (caller : Caller)
      → Tried n ch.next_seq (attempts pb parses n body envs ch caller)
  unfolding attempts
  attempts-Tried n body [] ch caller = tt
  attempts-Tried zero body (env ∷ envs) ch caller =
      Once-Tried ch.next_seq _ (attempt-Once body ch caller env)
  attempts-Tried (suc n) body (env ∷ envs) ch caller =
      retry_all-Tried n ch.next_seq _ _ (attempt-Once body ch caller env)
        (attempts-Tried n body envs)
