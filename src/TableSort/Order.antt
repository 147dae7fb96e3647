-- ===== src/TableSort/Order.antt =====
-- The comparators are consistent, as `Array.prototype.sort` asks for, and order what they should.
use Prim.Native.Nat.{Ordering}
use java_study_project.Base.{
  ℕ, ◌≡◌, ◌≢◌, refl, ap, sym, ◌∙◌, arith, [], ◌∷◌, if◌then◌else◌, inl, inr, Bool-cases,
}
use java_study_project.Text.{Text}
use java_study_project.TableSort.Keys.{
  text_compare, sort_date, date_key, below_50, parse_auto, sort_case_insensitive, sort_ip,
  make_standard_ip_address,
}

abbrev pub flip : Ordering → Ordering
flip Ordering.lt = Ordering.gt
flip Ordering.eq = Ordering.eq
flip Ordering.gt = Ordering.lt

text_compare-flip : (s t : Text) → text_compare t s ≡ flip (text_compare s t)
unfolding text_compare
text_compare-flip [] [] = refl
text_compare-flip [] (d ∷ t) = refl
text_compare-flip (c ∷ s) [] = refl
text_compare-flip (c ∷ s) (d ∷ t) = ground (arith, text_compare-flip s t)

text_compare_trans :
    (s t u : Text)
    → text_compare s t ≢ Ordering.gt
    → text_compare t u ≢ Ordering.gt
    → text_compare s u ≢ Ordering.gt
unfolding text_compare
text_compare_trans [] [] [] h k = h
text_compare_trans [] [] (e ∷ u) h k = k
text_compare_trans [] (d ∷ t) [] h k = λ x. cc
text_compare_trans [] (d ∷ t) (e ∷ u) h k = h
text_compare_trans (c ∷ s) [] u h k = absurd (h refl)
text_compare_trans (c ∷ s) (d ∷ t) [] h k = absurd (k refl)
text_compare_trans (c ∷ s) (d ∷ t) (e ∷ u) h k = ground (arith, text_compare_trans s t u)

text_compare-eq : (s t : Text) → text_compare s t ≡ Ordering.eq → s ≡ t
unfolding text_compare
text_compare-eq [] [] h = refl
text_compare-eq [] (d ∷ t) h = cc
text_compare-eq (c ∷ s) [] h = cc
text_compare-eq (c ∷ s) (d ∷ t) h = ground (arith, text_compare-eq s t)

-- The comparators that read text.
pub data TextSort : Type 0 where
  by_case by_date by_ip : TextSort

abbrev pub sort_text : (Text → Text) → TextSort → Text → Text → Ordering
sort_text lower by_case = sort_case_insensitive lower
sort_text lower by_date = sort_date
sort_text lower by_ip = sort_ip lower

key_of : (Text → Text) → TextSort → Text → Text
key_of lower by_case a = lower a
key_of lower by_date a = date_key a
key_of lower by_ip a = make_standard_ip_address (lower a)

sort_text-key :
    (lower : Text → Text) (k : TextSort) (a b : Text)
    → sort_text lower k a b ≡ text_compare (key_of lower k a) (key_of lower k b)
unfolding key_of sort_case_insensitive sort_date sort_ip
sort_text-key lower by_case a b = refl
sort_text-key lower by_date a b = refl
sort_text-key lower by_ip a b = refl

-- Swapping the arguments of any of the three swaps the answer, on all texts, those included that are
-- no date or address, whatever `toLowerCase` does.
pub sort_text-flip :
    (lower : Text → Text) (k : TextSort) (a b : Text)
    → sort_text lower k b a ≡ flip (sort_text lower k a b)
sort_text-flip lower k a b =
    sort_text-key lower k b a
    ∙ text_compare-flip (key_of lower k a) (key_of lower k b)
    ∙ ap flip (sym (sort_text-key lower k a b))

-- If a does not come after b, and b not after c, then a does not come after c.
pub sort_text_trans :
    (lower : Text → Text) (k : TextSort) (a b c : Text)
    → sort_text lower k a b ≢ Ordering.gt
    → sort_text lower k b c ≢ Ordering.gt
    → sort_text lower k a c ≢ Ordering.gt
sort_text_trans lower k a b c h h' = rw (sort_text-key lower k a c) (
    text_compare_trans (key_of lower k a) (key_of lower k b) (key_of lower k c)
      (rw (sort_text-key lower k a b) at h) (rw (sort_text-key lower k b c) at h'))

-- A date with a year of two digits stands where the same day of 20yy stands if yy is below 50, and
-- where that of 19yy stands if it is not.
sort_date-century :
    (d e p m n q y z : ℕ) (other : Text)
    → sort_date (d ∷ e ∷ p ∷ m ∷ n ∷ q ∷ y ∷ z ∷ []) other ≡ (
        if below_50 (parse_auto (y ∷ z ∷ []))
        then sort_date (d ∷ e ∷ p ∷ m ∷ n ∷ q ∷ b'2' ∷ b'0' ∷ y ∷ z ∷ []) other
        else sort_date (d ∷ e ∷ p ∷ m ∷ n ∷ q ∷ b'1' ∷ b'9' ∷ y ∷ z ∷ []) other)
unfolding sort_date
sort_date-century d e p m n q y z other = elim (Bool-cases (below_50 (parse_auto (y ∷ z ∷ [])))) [
  | inl h ↦ rw h
  | inr h ↦ rw h
]
