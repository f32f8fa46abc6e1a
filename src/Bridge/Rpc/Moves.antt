-- ===== src/Bridge/Rpc/Moves.antt =====
-- What a connection of src/bridge/pool.ts does with its calls: a reply only moves requests from the
-- pending ones to the settled ones.
use mcp_conductor.Base.{
  ℕ, zero, suc, ◌+◌, ◌≤◌, ◌≡◌, refl, ◌∙◌, Bool, true, false, none, some, List, [], ◌∷◌, ◌++◌, Text,
  keep, any, ◌==◌, if◌then◌else◌, arith, Bool-cases, inl, inr, index_of, Option-cases, take, drop,
}
use mcp_conductor.Bridge.Rpc.{
  Connection, Parsed, unparseable, null_value, parsed, Reply, newline, line_throws, trim, without,
  reply_of, answer, on_message, on_line, process_lines, handle_line,
}

-- How often a number stands in a list.
unfoldable pub times : ℕ → List ℕ → ℕ
times k [] = 0
times k (i ∷ is) = if k == i then suc (times k is) else times k is

pub times-append : (k : ℕ) (is js : List ℕ) → times k (is ++ js) ≡ times k is + times k js
unfolding times
times-append k [] js = omega arith
times-append k (i ∷ is) js = ground (arith, times-append k is js)

pub times-without :
    (k i : ℕ) (is : List ℕ) → times k (without i is) ≡ (if k == i then 0 else times k is)
unfolding times keep
times-without k i [] = ground arith
times-without k i (j ∷ is) = ground (arith, times-without k i is)

times-any : (i : ℕ) (is : List ℕ) → any (λ j. i == j) is ≡ true → 1 ≤ times i is
unfolding times any
times-any i [] h = ground arith
times-any i (j ∷ is) h = ground (arith, times-any i is)

-- No request is pending twice.
abbrev pub Single : Connection → Type 0
Single c = (k : ℕ) → times k c.pending ≤ 1

module _ {V : Type 0} where
  -- The requests that a list of settled calls names.
  unfoldable pub requests : List (ℕ × Reply V) → List ℕ
  requests [] = []
  requests ((id, reply) ∷ log) = id ∷ requests log

  pub requests-append :
      (k : ℕ) (log more : List (ℕ × Reply V))
      → times k (requests (log ++ more)) ≡ times k (requests log) + times k (requests more)
  unfolding requests times
  requests-append k [] more = omega arith
  requests-append k ((i, r) ∷ log) more = ground (arith, requests-append k log more)

  -- A step only moves requests from the pending ones to the settled ones.
  unfoldable pub Moves : Connection → Connection × List (ℕ × Reply V) → Type 0
  Moves c r =
      ((k : ℕ) → times k c.pending ≡ times k r.0.pending + times k (requests r.1))
      × (r.0.next_request_id ≡ c.next_request_id)
      × (r.0.closed ≡ c.closed)

  pub Moves-Single :
      (c : Connection) (r : Connection × List (ℕ × Reply V)) → Moves c r → Single c → Single r.0
  unfolding Moves
  Moves-Single c (c', settled) m s k = omega (arith, m.0 k, s k)

  Moves-Moves :
      (c : Connection) (r later : Connection × List (ℕ × Reply V))
      → Moves c r
      → Moves r.0 later
      → Moves c (later.0, r.1 ++ later.1)
  unfolding Moves
  Moves-Moves c (c', settled) (c'', more) m n =
      (λ k. omega (arith, m.0 k, n.0 k, requests-append k settled more), n.1 ∙ m.1, n.2 ∙ m.2)

  Moves-either :
      (c : Connection) (test : Bool) (r later : Connection × List (ℕ × Reply V))
      → Moves c r
      → Moves c later
      → Moves c (if test then r else later)
  Moves-either c true r later m n = m
  Moves-either c false r later m n = n

  unmoved : (c : Connection) (r : Connection × List (ℕ × Reply V)) → r ≡ (c, []) → Moves c r
  unfolding Moves requests times
  unmoved c r e = rw e (λ k. omega arith, refl, refl)

  answer-Moves :
      (c : Connection) (id : ℕ) (reply : Reply V) → Single c → Moves c (answer c id reply)
  unfolding answer Moves requests times
  answer-Moves c id reply s = elim (Bool-cases (any (λ j. id == j) c.pending)) [
    | inl e ↦ rw e (
      λ k. ground (arith, times-without k id c.pending, times-any id c.pending e, s k),
      refl,
      refl,
    )
    | inr e ↦ rw e (unmoved c _ refl)
  ]

  on_message-Moves : (c : Connection) (m : Parsed V) → Single c → Moves c (on_message c m)
  unfolding on_message Moves requests times
  on_message-Moves c unparseable s = unmoved c _ refl
  on_message-Moves c null_value s = unmoved c _ refl
  on_message-Moves c (parsed m) s = elim (Option-cases m.id) [
    | inl e ↦ rw e (unmoved c _ refl)
    | inr (id, e) ↦ rw e (answer-Moves c id (reply_of m.result m.error) s)
  ]

  module _ (parse : Text → Parsed V) where
    on_line-Moves : (c : Connection) (line : Text) → Single c → Moves c (on_line parse c line)
    unfolding on_line Moves requests times
    on_line-Moves c [] s = unmoved c _ refl
    on_line-Moves c (x ∷ line) s = on_message-Moves c (parse (x ∷ line)) s

    -- One round of the loop.
    process_lines-some :
        (fuel nl : ℕ) (c : Connection)
        → index_of newline c.line_buffer ≡ some nl
        → let line = trim (take nl c.line_buffer) in
          let now = on_line parse (record c { line_buffer = drop (suc nl) c.line_buffer }) line in
          let later = process_lines parse fuel now.0 in
          process_lines parse (suc fuel) c
          ≡ (if line_throws parse line then now else (later.0, now.1 ++ later.1))
    unfolding process_lines
    process_lines-some fuel nl c e = rw (process_lines, e) refl

    process_lines-none :
        (fuel : ℕ) (c : Connection)
        → index_of newline c.line_buffer ≡ none
        → process_lines parse (suc fuel) c ≡ (c, [])
    unfolding process_lines
    process_lines-none fuel c e = rw (process_lines, e) refl

    process_lines-zero : (c : Connection) → process_lines parse 0 c ≡ (c, [])
    unfolding process_lines
    process_lines-zero c = refl

    process_lines-Moves :
        (fuel : ℕ) (c : Connection) → Single c → Moves c (process_lines parse fuel c)
    unfolding Moves
    process_lines-Moves zero c s = unmoved c _ (process_lines-zero c)
    process_lines-Moves (suc fuel) c s = elim (Option-cases (index_of newline c.line_buffer)) [
      | inl e ↦ unmoved c _ (process_lines-none fuel c e)
      | inr (nl, e) ↦
          let d = record c { line_buffer = drop (suc nl) c.line_buffer } in
          let line = trim (take nl c.line_buffer) in
          let now = on_line-Moves d line s in
          let r = on_line parse d line in
          let later = process_lines parse fuel r.0 in
          rw (process_lines-some fuel nl c e) (
            Moves-either c (line_throws parse line) r (later.0, r.1 ++ later.1) now
              (Moves-Moves c r later now (process_lines-Moves fuel r.0 (Moves-Single d r now s))))
    ]

    pub handle_line-Moves :
        (c : Connection) (raw : Text) → Single c → Moves c (handle_line parse c raw)
    unfolding handle_line Moves
    handle_line-Moves c raw s =
        process_lines-Moves _ (record c { line_buffer = c.line_buffer ++ raw }) s
