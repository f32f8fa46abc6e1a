-- ===== src/Bridge/Rpc/Framing.antt =====
-- How src/bridge/pool.ts cuts what arrives on a connection into lines.
use mcp_conductor.Base.{
  index_of, take, drop, ℕ, zero, suc, ◌≤◌, ◌≡◌, refl, sym, ap, ◌∙◌, List, [], ◌∷◌, ◌++◌, Text,
  length, if◌then◌else◌, arith, inl, inr, Option-cases, Bool-cases, false, subst,
}
use mathlib.Core.List.{append_assoc, append-nil}
use mcp_conductor.Bridge.Rpc.{
  Connection, Parsed, unparseable, null_value, parsed, Reply, newline, trim, line_throws, on_line,
  on_message, process_lines, handle_line,
}
use mcp_conductor.Bridge.Rpc.Lines.{
  cut_lines, cut_lines-index_of-none, cut_lines-index_of, cut_lines-index_of-rest, index_of-length,
  cut_lines-append, join_lines, join_lines-cut_lines,
}

abbrev with_buffer : Text → Connection → Connection
with_buffer s c = record c { line_buffer = s }

module _ {V : Type 0} (parse : Text → Parsed V) where
  on_message-buffer :
      (s : Text) (c : Connection) (m : Parsed V)
      → ((on_message (with_buffer s c) m).0 ≡ with_buffer s (on_message c m).0)
        × ((on_message (with_buffer s c) m).1 ≡ (on_message c m).1)
  unfolding on_message
  on_message-buffer s c unparseable = (refl, refl)
  on_message-buffer s c null_value = (refl, refl)
  on_message-buffer s c (parsed m) = (ground arith, ground arith)

  on_line-buffer :
      (s : Text) (c : Connection) (line : Text)
      → ((on_line parse (with_buffer s c) line).0 ≡ with_buffer s (on_line parse c line).0)
        × ((on_line parse (with_buffer s c) line).1 ≡ (on_line parse c line).1)
  unfolding on_line
  on_line-buffer s c [] = (refl, refl)
  on_line-buffer s c (x ∷ line) = on_message-buffer s c (parse (x ∷ line))

  -- The lines one after the other, each trimmed.
  unfoldable pub on_lines : Connection → List Text → Connection × List (ℕ × Reply V)
  on_lines c [] = (c, [])
  on_lines c (l ∷ ls) =
      let (c', settled) = on_line parse c (trim l) in
      let (c'', more) = on_lines c' ls in (c'', settled ++ more)

  on_lines-buffer :
      (s : Text) (c : Connection) (ls : List Text)
      → ((on_lines (with_buffer s c) ls).0 ≡ with_buffer s (on_lines c ls).0)
        × ((on_lines (with_buffer s c) ls).1 ≡ (on_lines c ls).1)
  unfolding on_lines
  on_lines-buffer s c [] = (refl, refl)
  on_lines-buffer s c (l ∷ ls) =
      let now = on_line-buffer s c (trim l) in
      let later = on_lines-buffer s (on_line parse c (trim l)).0 ls in
      (rw now.0 later.0, rw (now.0, now.1) (ap (λ t. (on_line parse c (trim l)).1 ++ t) later.1))

  on_lines-append :
      (c : Connection) (ls ks : List Text)
      → ((on_lines c (ls ++ ks)).0 ≡ (on_lines (on_lines c ls).0 ks).0)
        × ((on_lines c (ls ++ ks)).1 ≡ (on_lines c ls).1 ++ (on_lines (on_lines c ls).0 ks).1)
  unfolding on_lines
  on_lines-append c [] ks = (refl, refl)
  on_lines-append c (l ∷ ls) ks =
      let later = on_lines-append (on_line parse c (trim l)).0 ls ks in
      (later.0, rw later.1 (sym (append_assoc (on_line parse c (trim l)).1 _ _)))

  -- The lines up to the first one that throws, this one included, and those after it.
  unfoldable pub read_lines : List Text → List Text
  unfolding line_throws
  read_lines [] = []
  read_lines (l ∷ ls) =
      let more = read_lines ls in if line_throws parse (trim l) then l ∷ [] else l ∷ more

  unfoldable pub unread_lines : List Text → List Text
  unfolding line_throws
  unread_lines [] = []
  unread_lines (l ∷ ls) =
      let more = unread_lines ls in if line_throws parse (trim l) then ls else more

  -- Lines of which none throws.
  unfoldable pub NoneThrows : List Text → Type 0
  NoneThrows [] = Unit
  NoneThrows (l ∷ ls) = (line_throws parse (trim l) ≡ false) × NoneThrows ls

  NoneThrows-read :
      (ls ks : List Text)
      → NoneThrows ls
      → (read_lines (ls ++ ks) ≡ ls ++ read_lines ks) × (unread_lines (ls ++ ks) ≡ unread_lines ks)
  unfolding NoneThrows read_lines unread_lines
  NoneThrows-read [] ks n = (refl, refl)
  NoneThrows-read (l ∷ ls) ks n = ground (arith, n.0, NoneThrows-read ls ks n.1)

  process_lines-cut :
      (fuel : ℕ) (s : Text) (c : Connection)
      → length s ≤ fuel
      → let cut = cut_lines s in
        ((process_lines parse fuel (with_buffer s c)).0
          ≡ with_buffer
              (join_lines (unread_lines cut.lines) ++ cut.rest)
              (on_lines c (read_lines cut.lines)).0)
        × ((process_lines parse fuel (with_buffer s c)).1 ≡ (on_lines c (read_lines cut.lines)).1)
  unfolding process_lines on_lines cut_lines read_lines unread_lines join_lines
  process_lines-cut zero [] c h = (refl, refl)
  process_lines-cut zero (x ∷ s) c h = absurd (omega arith)
  process_lines-cut (suc fuel) s c h = elim (Option-cases (index_of newline s)) [
    | inl e ↦ rw (e, cut_lines-index_of-none s e) (refl, refl)
    | inr (nl, e) ↦
        let rest = drop (suc nl) s in
        let line = trim (take nl s) in
        let first = on_line-buffer rest c line in
        let ih =
          process_lines-cut fuel rest (on_line parse c line).0
            (omega (arith, index_of-length s nl e)) in
        rw (e, cut_lines-index_of s nl e, cut_lines-index_of-rest s nl e, first.0, first.1)
          (elim (Bool-cases (line_throws parse line)) [
            | inl t ↦ rw (t, append-nil, join_lines-cut_lines rest) (refl, refl)
            | inr t ↦ rw t (ih.0, ap (λ t. (on_line parse c line).1 ++ t) ih.1)
          ])
  ]

  -- The loop over the buffer does what the complete lines of the buffer do one after the other, in
  -- their order, up to and with the first one on which it throws, if there is one. It leaves in the
  -- buffer the lines after that one, each with its line end, and the incomplete rest. It ends.
  pub handle_line-cut :
      (c : Connection) (raw : Text)
      → let cut = cut_lines (c.line_buffer ++ raw) in
        ((handle_line parse c raw).0 ≡ record (on_lines c (read_lines cut.lines)).0 {
          line_buffer = join_lines (unread_lines cut.lines) ++ cut.rest;
        })
        × ((handle_line parse c raw).1 ≡ (on_lines c (read_lines cut.lines)).1)
  unfolding handle_line
  handle_line-cut c raw =
      process_lines-cut (length (c.line_buffer ++ raw)) (c.line_buffer ++ raw) c (omega arith)

  -- What `_handleLine` does on a text in the buffer.
  abbrev Handles : Connection → Text → Connection × List (ℕ × Reply V) → Type 0
  Handles c s r =
      let cut = cut_lines s in
      (r.0
        ≡ with_buffer (join_lines (unread_lines cut.lines) ++ cut.rest)
            (on_lines c (read_lines cut.lines)).0)
      × (r.1 ≡ (on_lines c (read_lines cut.lines)).1)

  -- `_handleLine` on a connection that is another one with a rest in its buffer.
  handle_line-rest :
      (c d : Connection) (r b : Text)
      → d ≡ with_buffer r c
      → Handles c (r ++ b) (handle_line parse d b)
  handle_line-rest c d r b e =
      let cut = cut_lines (r ++ b) in
      let whole = handle_line-cut (with_buffer r c) b in
      let moved = on_lines-buffer r c (read_lines cut.lines) in
      rw e (
        whole.0 ∙ ap (with_buffer (join_lines (unread_lines cut.lines) ++ cut.rest)) moved.0,
        whole.1 ∙ moved.1,
      )

  -- A chunk whose lines do not throw is read whole.
  handle_line-whole :
      (c : Connection) (a : Text)
      → let cut = cut_lines (c.line_buffer ++ a) in
        NoneThrows cut.lines
        → ((handle_line parse c a).0 ≡ with_buffer cut.rest (on_lines c cut.lines).0)
          × ((handle_line parse c a).1 ≡ (on_lines c cut.lines).1)
  unfolding read_lines unread_lines join_lines
  handle_line-whole c a n =
      let ls = (cut_lines (c.line_buffer ++ a)).lines in
      let read = NoneThrows-read ls [] n in
      let all = append-nil ls in
      let got = handle_line-cut c a in
      let ks : read_lines ls ≡ ls = ap read_lines (sym all) ∙ read.0 ∙ all in
      let none : unread_lines ls ≡ [] = ap unread_lines (sym all) ∙ read.1 in
      (got.0 ∙ rw (ks, none) refl, got.1 ∙ ap (λ x. (on_lines c x).1) ks)

  -- The lines of two texts one after the other, of which those of the first do not throw.
  on_lines-join :
      (c : Connection) (s b : Text) (r : Connection × List (ℕ × Reply V))
      → let cut = cut_lines s in
        NoneThrows cut.lines
        → Handles (on_lines c cut.lines).0 (cut.rest ++ b) r
        → Handles c (s ++ b) (r.0, (on_lines c cut.lines).1 ++ r.1)
  on_lines-join c s b r n h =
      let cut = cut_lines-append s b in
      let ks = (cut_lines ((cut_lines s).rest ++ b)).lines in
      let read = NoneThrows-read (cut_lines s).lines ks n in
      let split = on_lines-append c (cut_lines s).lines (read_lines ks) in
      rw (cut.0, cut.1, read.0, read.1, split.0, split.1)
        (h.0, ap (λ t. (on_lines c (cut_lines s).lines).1 ++ t) h.1)

  -- How the backend's output is cut into chunks makes no difference, as long as the loop throws on no
  -- line that is complete with the first chunk: two chunks one after the other then leave the same
  -- connection and settle the same calls in the same order as both at once.
  pub handle_line-chunks :
      (c : Connection) (a b : Text)
      → NoneThrows (cut_lines (c.line_buffer ++ a)).lines
      → ((handle_line parse (handle_line parse c a).0 b).0 ≡ (handle_line parse c (a ++ b)).0)
        × ((handle_line parse c a).1 ++ (handle_line parse (handle_line parse c a).0 b).1
            ≡ (handle_line parse c (a ++ b)).1)
  handle_line-chunks c a b n =
      let s = c.line_buffer ++ a in
      let first = handle_line-whole c a n in
      let c' = (on_lines c (cut_lines s).lines).0 in
      let second = handle_line-rest c' (handle_line parse c a).0 (cut_lines s).rest b first.0 in
      let joined = on_lines-join c s b (handle_line parse (handle_line parse c a).0 b) n second in
      let both = handle_line-cut c (a ++ b) in
      let same : s ++ b ≡ c.line_buffer ++ (a ++ b) = append_assoc c.line_buffer a b in
      let moved =
        subst
          (λ x. Handles c x (
            (handle_line parse (handle_line parse c a).0 b).0,
            (on_lines c (cut_lines s).lines).1 ++ (handle_line parse (handle_line parse c a).0 b).1,
          ))
          same joined in
      (moved.0 ∙ sym both.0, rw first.1 (moved.1 ∙ sym both.1))
