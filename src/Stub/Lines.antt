-- ===== src/Stub/Lines.antt =====
-- `fix_rpc_method_signatures` of src/bin/stub_gen.rs, line by line.
use kaspa_python_sdk.Prelude.{
  ℕ, ◌≡◌, refl, sym, ap, ◌∙◌, Bool, true, false, not, ◌&&◌, ◌||◌, List, [], ◌∷◌, ◌++◌, map,
  append_assoc, append-nil, nat_beq, Bool-cases, inl, inr, if◌then◌else◌, arith,
}
use kaspa_python_sdk.Stub.Text.{
  Text, newline, carriage_return, is_empty, strip_carriage_return, lines_from, lines, ends_with,
  pop, contains_text, starts_with,
}
use kaspa_python_sdk.Stub.Generator.{
  transform_rpc_method_line, push_lines, fix_rpc_method_signatures,
}
use kaspa_python_sdk.Stub.Scan.{every}

abbrev pub is_inline : ℕ → Bool
is_inline c = not (nat_beq c newline || nat_beq c carriage_return)

abbrev pub all_inline : List Text → Bool
all_inline [] = true
all_inline (line ∷ rest) = every is_inline line && all_inline rest

-- lines that end, and the characters after the last of them
abbrev pub with_newlines : List Text → Text → Text
with_newlines [] last = last
with_newlines (line ∷ rest) last = line ++ newline ∷ with_newlines rest last

strip_carriage_return_inline :
    (line : Text) → every is_inline line ≡ true → strip_carriage_return line ≡ line
unfolding strip_carriage_return
strip_carriage_return_inline [] h = refl
strip_carriage_return_inline (c ∷ line) h =
    let inline : nat_beq c carriage_return ≡ false = ground (arith, h) in
    rw (strip_carriage_return, inline)
      (ap (λ r. c ∷ r) (strip_carriage_return_inline line (ground (arith, h))))

lines_from-append :
    (before line t : Text)
    → every is_inline line ≡ true
    → lines_from before (line ++ t) ≡ lines_from (before ++ line) t
unfolding lines_from
lines_from-append before [] t h = ap (λ b. lines_from b t) (sym (append-nil before))
lines_from-append before (c ∷ line) t h =
    let inline : nat_beq c newline ≡ false = ground (arith, h) in
    rw (lines_from, inline)
      (lines_from-append (before ++ c ∷ []) line t (ground (arith, h))
        ∙ ap (λ b. lines_from b t) (append_assoc before (c ∷ []) line))

lines_line :
    (line t : Text) → every is_inline line ≡ true → lines (line ++ newline ∷ t) ≡ line ∷ lines t
unfolding lines_from
lines_line line t h =
    lines_from-append [] line (newline ∷ t) h
    ∙ ap (λ l. l ∷ lines t) (strip_carriage_return_inline line h)

lines_last :
    (last : Text)
    → every is_inline last ≡ true
    → lines last ≡ (if is_empty last then [] else last ∷ [])
unfolding lines_from
lines_last last h = ap lines (sym (append-nil last)) ∙ lines_from-append [] last [] h

is_empty-append : (s : Text) (c : ℕ) (t : Text) → is_empty (s ++ c ∷ t) ≡ false
is_empty-append [] c t = refl
is_empty-append (x ∷ s) c t = refl

ends_with-append :
    (s : Text) (c : ℕ) (t : Text) (x : ℕ) → ends_with (s ++ c ∷ t) x ≡ ends_with (c ∷ t) x
unfolding ends_with
ends_with-append [] c t x = refl
ends_with-append (y ∷ s) c t x =
    let later = is_empty-append s c t in
    let rest = ends_with-append s c t x in ground (arith, later, rest)

ends_with-newline : (s : Text) → ends_with (s ++ newline ∷ []) newline ≡ true
unfolding ends_with
ends_with-newline s = ends_with-append s newline [] newline

pop-append : (s : Text) (c : ℕ) → pop (s ++ c ∷ []) ≡ s
unfolding pop
pop-append [] c = refl
pop-append (y ∷ s) c = rw (pop, is_empty-append s c []) (ap (λ r. y ∷ r) (pop-append s c))

ends_with-inline : (last : Text) → every is_inline last ≡ true → ends_with last newline ≡ false
unfolding ends_with
ends_with-inline [] h = refl
ends_with-inline (c ∷ last) h = let rest = ends_with-inline last in ground (arith, h, rest)

with_newlines-append :
    (rows : List Text) (last t : Text)
    → with_newlines rows (last ++ t) ≡ with_newlines rows last ++ t
with_newlines-append [] last t = refl
with_newlines-append (line ∷ rows) last t =
    ap (λ r. line ++ newline ∷ r) (with_newlines-append rows last t)
    ∙ sym (append_assoc line (newline ∷ with_newlines rows last) t)

is_empty-with_newlines :
    (rows : List Text) (c : ℕ) (t : Text) → is_empty (with_newlines rows (c ∷ t)) ≡ false
is_empty-with_newlines [] c t = refl
is_empty-with_newlines (line ∷ rows) c t = is_empty-append line newline _

ends_with-with_newlines :
    (rows : List Text) (c : ℕ) (t : Text) (x : ℕ)
    → ends_with (with_newlines rows (c ∷ t)) x ≡ ends_with (c ∷ t) x
unfolding ends_with
ends_with-with_newlines [] c t x = refl
ends_with-with_newlines (line ∷ rows) c t x =
    let later = is_empty-with_newlines rows c t in
    let rest = ends_with-with_newlines rows c t x in
    ends_with-append line newline (with_newlines rows (c ∷ t)) x ∙ ground (arith, later, rest)

abbrev some_lines : List Text → Bool
some_lines [] = false
some_lines (line ∷ rows) = true

ends_with-newlines :
    (rows : List Text) → ends_with (with_newlines rows []) newline ≡ some_lines rows
unfolding ends_with
ends_with-newlines [] = refl
ends_with-newlines (line ∷ []) = ends_with-append line newline [] newline
ends_with-newlines (line ∷ other ∷ rows) =
    let rest = ends_with-newlines (other ∷ rows) in
    ends_with-append line newline (with_newlines (other ∷ rows) []) newline ∙ ground (arith, rest)

some_lines-map : (f : Text → Text) (rows : List Text) → some_lines (map f rows) ≡ some_lines rows
some_lines-map f [] = refl
some_lines-map f (line ∷ rows) = refl

module _ (to_uppercase : ℕ → Text) where
  abbrev transform : Text → Text
  transform = transform_rpc_method_line to_uppercase

  push_lines-with_newlines :
      (rows : List Text) (last : Text)
      → all_inline rows ≡ true
      → every is_inline last ≡ true
      → push_lines to_uppercase (lines (with_newlines rows last))
        ≡ with_newlines
            (map transform rows)
            (if is_empty last then [] else transform last ++ newline ∷ [])
  unfolding push_lines lines_from
  push_lines-with_newlines [] [] h hl = refl
  push_lines-with_newlines [] (c ∷ last) h hl =
      ap (push_lines to_uppercase) (lines_last (c ∷ last) hl)
  push_lines-with_newlines (line ∷ rows) last h hl =
      ap (push_lines to_uppercase) (lines_line line (with_newlines rows last) (ground (arith, h)))
      ∙ ap (λ r. transform line ++ newline ∷ r)
          (push_lines-with_newlines rows last (ground (arith, h)) hl)

  -- For lines without `\n` and `\r`, each with its `\n`, and characters after them, each line is
  -- transformed by itself, and so are the characters.
  pub fix_rpc_method_signatures-with_newlines :
      (rows : List Text) (last : Text)
      → all_inline rows ≡ true
      → every is_inline last ≡ true
      → fix_rpc_method_signatures to_uppercase (with_newlines rows last)
        ≡ with_newlines
            (map (transform_rpc_method_line to_uppercase) rows)
            (transform_rpc_method_line to_uppercase last)
  unfolding fix_rpc_method_signatures transform_rpc_method_line contains_text starts_with
  fix_rpc_method_signatures-with_newlines rows [] h hl =
      let ends = ends_with-newlines rows in
      let still = ends_with-newlines (map transform rows) ∙ some_lines-map transform rows in
      rw (fix_rpc_method_signatures, push_lines-with_newlines rows [] h hl, ends, still)
        (elim (Bool-cases (some_lines rows)) [ inl e ↦ rw e refl | inr e ↦ rw e refl ])
  fix_rpc_method_signatures-with_newlines rows (c ∷ last) h hl =
      let bare = ends_with-with_newlines rows c last newline ∙ ends_with-inline (c ∷ last) hl in
      let pushed =
        push_lines-with_newlines rows (c ∷ last) h hl
        ∙ with_newlines-append (map transform rows) (transform (c ∷ last)) (newline ∷ []) in
      rw
        (
          fix_rpc_method_signatures,
          pushed,
          ends_with-newline (with_newlines (map transform rows) (transform (c ∷ last))),
          bare,
        )
        (pop-append (with_newlines (map transform rows) (transform (c ∷ last))) newline)
