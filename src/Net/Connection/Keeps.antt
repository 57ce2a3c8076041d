-- ===== src/Net/Connection/Keeps.antt =====
-- src/net/TcpConnection.cpp: a sound connection, and what sending does to its bytes.
use mini_rpc.Base.{
  ℕ, ◌+◌, ◌≤◌, ◌<◌, ◌≡◌, refl, subst, if-cases, take_all, length_nil, take-append-drop, ap, sym,
  ◌∙◌, inl, inr, List, [], ◌++◌, append-nil, false, not, ◌&&◌, ◌==◌, ltb, if◌then◌else◌, length,
  take, drop, sub_size, size_mod, arith, Bool-cases, length-drop,
}
use mini_rpc.Net.Buffer.{Buffer, readable_bytes, cheap_prepend}
use mini_rpc.Net.Buffer.Invariant.{IsValid, Fits, append-IsValid}
use mini_rpc.Net.Buffer.Refine.{contents-append}
use mini_rpc.Net.Buffer.Contents.{contents, length-contents, length-contents_readable}
use mini_rpc.Net.Connection.{
  Connection, Turn, Op, WriteAnswer, wrote, again, broken, establish, run_send, is_disconnected,
  idle, queue_rest, write_now, send_in_loop,
}

-- What an operation gives the connection to send.
abbrev pub offered : Op → Connection → List ℕ
offered (run_send answer message) c = if is_disconnected c.state then [] else message
offered op c = []

-- `write` takes no more than it is offered.
abbrev pub Within : WriteAnswer → ℕ → Type 0
Within (wrote n) size = n ≤ size
Within answer size = Unit

-- The message fits the address space beside what waits, and a connection is established once.
abbrev pub Allowed : Op → Connection → Type 0
Allowed (run_send answer message) c =
    Within answer (length message)
    × (cheap_prepend + length (contents c.output) + length message < size_mod)
Allowed establish c = is_disconnected c.state ≡ false
Allowed op c = Unit

-- A valid output buffer that is empty where an open connection does not wait to write.
pub record IsSound (c : Connection) : Type 0 where
  pub output : IsValid c.output
  pub flushed : is_disconnected c.state ≡ false → c.writing ≡ false → contents c.output ≡ []

-- The kernel's bytes and the buffer are the buffer before and what was given, in order.
pub record Keeps (message : List ℕ) (c : Connection) (t : Turn) : Type 0 where
  pub order : t.written ++ contents t.conn.output ≡ contents c.output ++ message
  pub sound : IsSound t.conn

pub idle-Keeps :
    (c d : Connection)
    → IsSound c
    → d.output ≡ c.output
    → (is_disconnected d.state ≡ false
        → d.writing ≡ false
        → (is_disconnected c.state ≡ false) × (c.writing ≡ false))
    → Keeps [] c (idle d)
idle-Keeps c d s e unclosed = record {
  order = ap contents e ∙ sym (append-nil (contents c.output));
  sound = record {
    output = subst IsValid (sym e) s.output;
    flushed = λ h w. ap contents e ∙ s.flushed (unclosed h w).0 (unclosed h w).1;
  };
}

-- Queueing after `written`, where the output buffer is empty or nothing was written.
pub queue_rest-Keeps :
    (written rest : List ℕ) (c : Connection)
    → IsSound c
    → is_disconnected c.state ≡ false
    → cheap_prepend + length (contents c.output) + length rest < size_mod
    → written ++ (contents c.output ++ rest) ≡ contents c.output ++ (written ++ rest)
    → Keeps (written ++ rest) c (queue_rest written rest c)
unfolding queue_rest
queue_rest-Keeps written rest c s o f e =
    let fits : Fits (length rest) c.output = omega (arith, length-contents c.output s.output) in
    if-cases (Keeps (written ++ rest) c) (ltb 0 (length rest))
      (λ h. record {
        order = ap (written ++◌) (contents-append rest c.output s.output fits) ∙ e;
        sound = record {
          output = append-IsValid rest c.output s.output fits;
          flushed = λ a b. grind (arith, b);
        };
      })
      (λ h.
        let none_left = length_nil rest (ground (arith, h)) in
        record {
          order =
              ap (written ++◌)
                (sym (append-nil (contents c.output)) ∙ ap (contents c.output ++◌) (sym none_left))
              ∙ e;
          sound = s;
        })

pub write_now-Keeps :
    (answer : WriteAnswer) (message : List ℕ) (c : Connection)
    → IsSound c
    → is_disconnected c.state ≡ false
    → contents c.output ≡ []
    → Within answer (length message)
    → cheap_prepend + length (contents c.output) + length message < size_mod
    → Keeps message c (write_now answer message c)
unfolding write_now
write_now-Keeps again message c s o e w f = queue_rest-Keeps [] message c s o f refl
write_now-Keeps broken message c s o e w f = queue_rest-Keeps [] message c s o f refl
write_now-Keeps (wrote n) message c s o e w f =
    let m = sub_size (length message) (sub_size (length message) n) in
    let d : m ≡ n = omega arith in
    let whole = take-append-drop n message in
    if-cases (Keeps message c) (sub_size (length message) n == 0)
      (λ h. record {
        order =
            ap (take n message ++◌) e
            ∙ append-nil (take n message)
            ∙ take_all n message (ground (arith, h))
            ∙ sym (ap (◌++ message) e);
        sound = s;
      })
      (λ h.
        subst (λ x. Keeps x c (queue_rest (take n message) (drop m message) c))
          (ap (λ k. take n message ++ drop k message) d ∙ whole)
          (queue_rest-Keeps (take n message) (drop m message) c s o
            (omega (arith, length-drop m message)) (rw e refl)))

pub send_in_loop-Keeps :
    (answer : WriteAnswer) (message : List ℕ) (c : Connection)
    → IsSound c
    → Within answer (length message)
    → cheap_prepend + length (contents c.output) + length message < size_mod
    → Keeps (offered (run_send answer message) c) c (send_in_loop answer message c)
unfolding send_in_loop
send_in_loop-Keeps answer message c s w f = elim (Bool-cases (is_disconnected c.state)) [
  | inl e ↦ simp e (idle-Keeps c c s refl (λ a b. (a, b)))
  | inr e ↦ simp e (
      if-cases (Keeps message c) (not c.writing && (readable_bytes c.output == 0))
        (λ h. write_now-Keeps answer message c s e (s.flushed e (ground (arith, h))) w f)
        (λ h. queue_rest-Keeps [] message c s e f refl))
]

pub empty : (b : Buffer) → IsValid b → readable_bytes b ≡ 0 → contents b ≡ []
empty b v h = length_nil (contents b) (length-contents_readable b v ∙ h)
