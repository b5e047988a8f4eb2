-- ===== src/Core/Rewrite/Verbatim.antt =====
-- Text outside paths in rewriteExpression, pkg/core/rules_rewrite.go.
use relaymesh.Prelude.{
  ℕ, zero, suc, ◌≤◌, ◌≡◌, refl, sym, ap, ◌∙◌, Bool, true, false, not, ◌||◌, ◌&&◌, Option, some, [],
  ◌∷◌, ◌++◌, append_assoc, append-nil, arith, ◌==◌, if◌then◌else◌, and-eq-true, length,
}
use relaymesh.Prelude.Text.{Text}
use relaymesh.Core.Rewrite.{
  Mode, code, in_string, Output, Round, write, is_ident_start, code_round, round, rewrite_loop,
  rewrite_expression,
}
use relaymesh.Core.Rewrite.Total.{round-Ends}

-- More fuel than the text has bytes changes nothing.
rewrite_loop_fuel :
    (f g : ℕ) (m : Mode) (t : Text) (o : Output)
    → length t ≤ f
    → length t ≤ g
    → rewrite_loop f m t o ≡ rewrite_loop g m t o
unfolding rewrite_loop
rewrite_loop_fuel zero zero m t o h k = refl
rewrite_loop_fuel f g m [] o h k = refl
rewrite_loop_fuel zero g m (ch ∷ r) o h k = absurd (omega arith)
rewrite_loop_fuel f zero m (ch ∷ r) o h k = absurd (omega arith)
rewrite_loop_fuel (suc f) (suc g) m (ch ∷ r) o h k =
    let (n, e, shorter) = round-Ends m ch r o in
    rw (e, rewrite_loop) (rewrite_loop_fuel f g n.mode n.rest n.output (omega arith) (omega arith))

abbrev pub rewrite_from : Mode → Text → Output → Option Output
rewrite_from m t o = rewrite_loop (length t) m t o

pub rewrite_from_step :
    (m : Mode) (ch : ℕ) (r : Text) (o : Output) (n : Round)
    → round m ch r o ≡ some n
    → length n.rest ≤ length r
    → rewrite_from m (ch ∷ r) o ≡ rewrite_from n.mode n.rest n.output
unfolding rewrite_loop
rewrite_from_step m ch r o n e h =
    rw (e, rewrite_loop)
      (rewrite_loop_fuel (length r) (length n.rest) n.mode n.rest n.output h (omega arith))

-- A byte outside strings that starts neither a name nor a path.
abbrev pub is_plain : ℕ → Bool
is_plain ch = not (ch == b'$' || is_ident_start ch)

-- Where a reader of string literals stands after a byte: a backslash in a string hides the next
-- byte, and the quote that opened the string closes it.
abbrev pub mode_after : Mode → ℕ → Mode
mode_after code ch = if ch == b'"' || ch == b'\'' then in_string ch false else code
mode_after (in_string q true) ch = in_string q false
mode_after (in_string q false) ch =
    if ch == b'\\' then in_string q true else if ch == q then code else in_string q false

abbrev is_copied : Mode → ℕ → Bool
is_copied code ch = is_plain ch
is_copied (in_string q escaped) ch = true

abbrev is_closed : Mode → Bool
is_closed code = true
is_closed (in_string q escaped) = false

-- Operators, numbers, spaces and closed string literals, with no name or path between them.
abbrev pub is_verbatim : Mode → Text → Bool
is_verbatim m [] = is_closed m
is_verbatim m (ch ∷ r) = is_copied m ch && is_verbatim (mode_after m ch) r

round-is_copied :
    (m : Mode) (ch : ℕ) (r : Text) (o : Output)
    → is_copied m ch ≡ true
    → round m ch r o
      ≡ some (record { mode = mode_after m ch; rest = r; output = write (ch ∷ []) o })
unfolding round code_round is_ident_start
round-is_copied code ch r o h = ground arith
round-is_copied (in_string q true) ch r o h = refl
round-is_copied (in_string q false) ch r o h = refl

write-append : (xs ys : Text) (o : Output) → write ys (write xs o) ≡ write (xs ++ ys) o
write-append xs ys o = ap (λ (out : Text). record o { out = out }) (append_assoc o.out xs ys)

pub run_verbatim :
    (m : Mode) (t r : Text) (o : Output)
    → is_verbatim m t ≡ true
    → rewrite_from m (t ++ r) o ≡ rewrite_from code r (write t o)
run_verbatim code [] r o h =
    ap (λ (out : Text). rewrite_from code r (record o { out = out })) (sym (append-nil o.out))
run_verbatim (in_string q escaped) [] r o h = absurd (cc h)
run_verbatim m (ch ∷ t) r o h =
    let (copied, rest) = and-eq-true (is_copied m ch) (is_verbatim (mode_after m ch) t) h in
    rewrite_from_step m ch (t ++ r) o _ (round-is_copied m ch (t ++ r) o copied) (omega arith)
    ∙ run_verbatim (mode_after m ch) t r (write (ch ∷ []) o) rest
    ∙ ap (rewrite_from code r) (write-append (ch ∷ []) t o)

abbrev pub nothing : Output
nothing = record { out = []; var_map = [] }

-- Text with no name and no path outside its string literals, whose literals are all closed, comes
-- back as it is, and no variable is introduced.
pub rewrite_expression-verbatim :
    (expr : Text)
    → is_verbatim code expr ≡ true
    → rewrite_expression expr ≡ some (record { out = expr; var_map = [] })
unfolding rewrite_expression rewrite_loop
rewrite_expression-verbatim expr h =
    ap (λ (t : Text). rewrite_from code t nothing) (sym (append-nil expr))
    ∙ run_verbatim code expr [] nothing h
