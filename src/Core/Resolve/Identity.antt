-- ===== src/Core/Resolve/Identity.antt =====
-- ruleIDFromParts of pkg/core/rules_resolve.go: the identifiers of rules.
use mathlib.Core.List.{Perm, Permᴰ, is_set}
use native.Mathlib.Nat.{ℕ_set}
use mathlib.Core.Logic.{∥∥₁_elim}
use relaymesh.Prelude.{◌≡◌, refl, sym, ap, ◌∙◌, true, false, List, [], ◌∷◌, arith}
use relaymesh.Prelude.Text.{Text, trim_space}
use relaymesh.Core.EmitList.{clean, clean_idem}
use relaymesh.Core.Libraries.{Libraries}
use relaymesh.Core.Resolve.{
  text_le, insert_sorted, sort_strings, normalize_rule_parts, rule_id_from_parts,
}

text_le_total : (s t : Text) → text_le s t ≡ false → text_le t s ≡ true
unfolding text_le
text_le_total [] t h = cc
text_le_total (c ∷ s) [] h = refl
text_le_total (c ∷ s) (d ∷ t) h = ground (arith, text_le_total s t)

text_le_antisym : (s t : Text) → text_le s t ≡ true → text_le t s ≡ true → s ≡ t
unfolding text_le
text_le_antisym [] [] h k = refl
text_le_antisym [] (d ∷ t) h k = cc
text_le_antisym (c ∷ s) [] h k = cc
text_le_antisym (c ∷ s) (d ∷ t) h k = ground (arith, text_le_antisym s t)

text_le_trans : (s t u : Text) → text_le s t ≡ true → text_le t u ≡ true → text_le s u ≡ true
unfolding text_le
text_le_trans [] t u h k = refl
text_le_trans (c ∷ s) [] u h k = cc
text_le_trans (c ∷ s) (d ∷ t) [] h k = cc
text_le_trans (c ∷ s) (d ∷ t) (e ∷ u) h k = ground (arith, text_le_trans s t u)

-- The order in which two strings are inserted does not matter.
insert_sorted_comm :
    (x y : Text) (l : List Text)
    → insert_sorted x (insert_sorted y l) ≡ insert_sorted y (insert_sorted x l)
unfolding insert_sorted
insert_sorted_comm x y [] =
    ground (arith, text_le_total x y, text_le_total y x, text_le_antisym x y)
insert_sorted_comm x y (z ∷ l) = ground (
  arith,
  text_le_total x y,
  text_le_total y x,
  text_le_antisym x y,
  text_le_total x z,
  text_le_total y z,
  text_le_trans x y z,
  text_le_trans y x z,
  text_le_trans x z y,
  text_le_trans y z x,
  insert_sorted_comm x y l,
)

clean_swap :
    (a b : Text) (l : List Text)
    → sort_strings (clean (a ∷ b ∷ l)) ≡ sort_strings (clean (b ∷ a ∷ l))
unfolding clean sort_strings
clean_swap a b l =
    ground (arith, insert_sorted_comm (trim_space a) (trim_space b) (sort_strings (clean l)))

clean_cons :
    (a : Text) (l m : List Text)
    → sort_strings (clean l) ≡ sort_strings (clean m)
    → sort_strings (clean (a ∷ l)) ≡ sort_strings (clean (a ∷ m))
unfolding clean sort_strings
clean_cons a l m h = ground arith

sort_clean_perm :
    {xs ys : List Text} → Permᴰ xs ys → sort_strings (clean xs) ≡ sort_strings (clean ys)
sort_clean_perm Permᴰ.nil = refl
sort_clean_perm (Permᴰ.cons {a} {b} {l₁ = l} {l₂ = m} e p) =
    clean_cons a l m (sort_clean_perm p) ∙ ap (λ (x : Text). sort_strings (clean (x ∷ m))) e
sort_clean_perm (Permᴰ.swap {a} {b} {a'} {l} e f) =
    clean_swap a b l
    ∙ ap (λ (x : Text). sort_strings (clean (x ∷ a ∷ l))) f
    ∙ ap (λ (x : Text). sort_strings (clean (a' ∷ x ∷ l))) e
sort_clean_perm (Permᴰ.trans p q) = sort_clean_perm p ∙ sort_clean_perm q

normalize_rule_parts-perm :
    (xs ys : List Text) → Perm xs ys → normalize_rule_parts xs ≡ normalize_rule_parts ys
unfolding normalize_rule_parts
normalize_rule_parts-perm xs ys p = ∥∥₁_elim p (is_set (is_set ℕ_set) _ _) sort_clean_perm

-- Two rules whose topics are the same up to order, and whose `when`, driver and topics are the
-- same up to spaces around them, get the same identifier.
pub rule_id_from_parts-perm :
    (lib : Libraries) (w w' : Text) (emit emit' : List Text) (d d' : Text)
    → trim_space w ≡ trim_space w'
    → Perm (clean emit) (clean emit')
    → trim_space d ≡ trim_space d'
    → rule_id_from_parts lib w emit d ≡ rule_id_from_parts lib w' emit' d'
unfolding rule_id_from_parts normalize_rule_parts
rule_id_from_parts-perm lib w w' emit emit' d d' hw p hd = rw (hw, hd, parts)
  where
    parts : normalize_rule_parts emit ≡ normalize_rule_parts emit'
    parts =
        ap sort_strings (sym (clean_idem emit))
        ∙ normalize_rule_parts-perm (clean emit) (clean emit') p
        ∙ ap sort_strings (clean_idem emit')
