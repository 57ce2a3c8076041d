-- ===== src/Net/TcpServer/Names.antt =====
-- A new connection's name is that of no other connection.
use mini_rpc.Base.{
  ℕ, ◌+◌, lt→ltb, ◌<◌, ◌^◌, ◌≡◌, refl, ap, sym, ◌∙◌, inl, inr, List, [], ◌∷◌, ◌++◌, length, drop,
  drop-append_self, none, some, Option-cases, arith,
}
use mini_rpc.Base.Dict.{lookup, erase, lookup-erase_ne, lookup-erase_self, lookup-insert_ne}
use mini_rpc.Base.Text.{Text, text, Text-discrete}
use mini_rpc.Base.Decimal.{to_string, atoi, atoi-to_string}
use mini_rpc.Net.TcpServer.{
  TcpServer, Entry, int_text, conn_name, accept_one, handle_new_connection, remove_connection, Step,
  accepts, closes, step,
}

-- Every connection has the name of a number that was given out.
pub record IsNamed (s : TcpServer) : Type 0 where
  pub named :
      (key : Text) (e : Entry)
      → lookup Text-discrete key s.connections ≡ some e
      → (id : ℕ) × (id < s.next_conn_id) × (key ≡ conn_name s id)

int_text-small : (i : ℕ) → i < 2 ^ 31 → int_text i ≡ to_string i
int_text-small i h = rw (lt→ltb i (2 ^ 31) h) refl

conn_name_injective :
    (s : TcpServer) (i j : ℕ) → i < 2 ^ 31 → j < 2 ^ 31 → conn_name s i ≡ conn_name s j → i ≡ j
unfolding conn_name
conn_name_injective s i j hi hj e =
    let tail = λ (k : ℕ). drop-append_self (length s.name) s.name (text "-" ++ int_text k) refl in
    let same : text "-" ++ int_text i ≡ text "-" ++ int_text j =
      sym (tail i) ∙ ap (drop (length s.name)) e ∙ tail j in
    let digits : to_string i ≡ to_string j =
      sym (int_text-small i hi) ∙ ap (drop 1) same ∙ int_text-small j hj in
    sym (atoi-to_string i (omega arith)) ∙ ap atoi digits ∙ atoi-to_string j (omega arith)

pub conn_name-fresh :
    (s : TcpServer)
    → IsNamed s
    → s.next_conn_id < 2 ^ 31
    → lookup Text-discrete (conn_name s s.next_conn_id) s.connections ≡ none
conn_name-fresh s n h =
    elim (Option-cases (lookup Text-discrete (conn_name s s.next_conn_id) s.connections)) [
      | inl e ↦ e
      | inr (c, e) ↦
          let (id, lt, same) = n.named (conn_name s s.next_conn_id) c e in
          absurd (omega (arith, conn_name_injective s s.next_conn_id id h (omega arith) same))
    ]

accept_one-IsNamed :
    (fd : ℕ) (s : TcpServer) → s.next_conn_id < 2 ^ 31 → IsNamed s → IsNamed (accept_one fd s)
unfolding accept_one conn_name
accept_one-IsNamed fd s h n = record {
  named = λ key e found. elim (Text-discrete (conn_name s s.next_conn_id) key) [
    | yes p ↦ (s.next_conn_id, omega arith, sym p)
    | no ne ↦
        let (id, lt, same) = n.named key e (
          sym (lookup-insert_ne Text-discrete (conn_name s s.next_conn_id) key _ s.connections ne)
          ∙ found) in
        (id, omega arith, same)
  ];
}

remove_connection-IsNamed :
    (key : Text) (s : TcpServer) → IsNamed s → IsNamed (remove_connection key s)
unfolding remove_connection conn_name
remove_connection-IsNamed gone s n = record {
  named = λ key e found. elim (Text-discrete gone key) [
    | yes p ↦ absurd (removed key e p found)
    | no ne ↦ n.named key e (sym (lookup-erase_ne Text-discrete gone key s.connections ne) ∙ found)
  ];
}
  where
    removed :
        (key : Text) (e : Entry)
        → gone ≡ key
        → lookup Text-discrete key (erase Text-discrete gone s.connections) ≡ some e
        → ⊥
    removed key e p found =
        grind (arith, lookup-erase_self Text-discrete gone s.connections, p, found)

-- How many connections the steps accept.
abbrev pub accepted : List Step → ℕ
accepted [] = 0
accepted (accepts fds ∷ ts) = length fds + accepted ts
accepted (closes key ∷ ts) = accepted ts

-- Connections under numbers given out, of which `n` more have been.
record Gives (n : ℕ) (s t : TcpServer) : Type 0 where
  names : IsNamed t
  given : t.next_conn_id ≡ s.next_conn_id + n

handle_new_connection-Gives :
    (fds : List ℕ) (s : TcpServer)
    → s.next_conn_id + length fds < 2 ^ 31
    → IsNamed s
    → Gives (length fds) s (handle_new_connection fds s)
unfolding handle_new_connection accept_one
handle_new_connection-Gives [] s h n = record { names = n; given = omega arith }
handle_new_connection-Gives (fd ∷ fds) s h n =
    let now = accept_one-IsNamed fd s (omega arith) n in
    let k = handle_new_connection-Gives fds (accept_one fd s) (omega arith) now in
    record { names = k.names; given = omega (arith, k.given) }

unfoldable pub run : List Step → TcpServer → TcpServer
run [] s = s
run (t ∷ ts) s = run ts (step t s)

run-Gives :
    (ts : List Step) (s : TcpServer)
    → s.next_conn_id + accepted ts < 2 ^ 31
    → IsNamed s
    → Gives (accepted ts) s (run ts s)
unfolding run step remove_connection
run-Gives [] s h n = record { names = n; given = omega arith }
run-Gives (accepts fds ∷ ts) s h n =
    let now = handle_new_connection-Gives fds s (omega arith) n in
    let k = run-Gives ts (handle_new_connection fds s) (omega (arith, now.given)) now.names in
    record { names = k.names; given = omega (arith, k.given, now.given) }
run-Gives (closes key ∷ ts) s h n =
    let k = run-Gives ts (remove_connection key s) h (remove_connection-IsNamed key s n) in
    record { names = k.names; given = k.given }

-- In every run of accepted and closed connections that starts with a table of connections under
-- numbers given out before, and accepts no more than the int counter has numbers left (the next number
-- and the accepted ones add up to less than 2^31), the next connection's name is not in the table, so
-- that it replaces no connection.
pub run-fresh :
    (ts : List Step) (s : TcpServer)
    → IsNamed s
    → s.next_conn_id + accepted ts < 2 ^ 31
    → lookup Text-discrete (conn_name (run ts s) (run ts s).next_conn_id) (run ts s).connections
      ≡ none
run-fresh ts s n h =
    let k = run-Gives ts s h n in conn_name-fresh (run ts s) k.names (omega (arith, k.given))
