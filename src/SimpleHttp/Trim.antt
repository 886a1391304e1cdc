-- ===== src/SimpleHttp/Trim.antt =====
-- simple_http/tcp_server/include/utils.h: Ltrim, Rtrim and Trim.
use mathlib.Core.List.{reverse, reverse-cons, reverse-append, reverse-reverse}
use cpp_programming.Base.{
  ◌≡◌, refl, sym, ap, ◌∙◌, subst, inl, inr, true, false, [], ◌∷◌, ◌++◌, append-nil, arith,
  Bool-cases, All,
}
use cpp_programming.Text.{Text, is_space, drop_while}

-- `find_if` from the front, and the erasure of what stands before.
unfoldable pub ltrim : Text → Text
ltrim s = drop_while is_space s

-- `find_if` from the back, and the erasure of what stands behind.
unfoldable pub rtrim : Text → Text
rtrim s = reverse (drop_while is_space (reverse s))

unfoldable pub trim : Text → Text
unfolding ltrim rtrim
trim s = rtrim (ltrim s)

abbrev pub AllSpaces : Text → Type 0
AllSpaces = All (λ c. is_space c ≡ true)

-- No white space at the front.
abbrev pub StartsClean : Text → Type 0
StartsClean [] = Unit {0}
StartsClean (c ∷ s) = is_space c ≡ false

abbrev pub IsTrimmed : Text → Type 0
IsTrimmed s = StartsClean s × StartsClean (reverse s)

drop_while-StartsClean : (s : Text) → StartsClean (drop_while is_space s)
drop_while-StartsClean [] = tt
drop_while-StartsClean (c ∷ s) = ground (arith, drop_while-StartsClean s)

drop_while-id : (s : Text) → StartsClean s → drop_while is_space s ≡ s
drop_while-id [] h = refl
drop_while-id (c ∷ s) h = rw h

drop_while-splits : (s : Text) → (w : Text) × AllSpaces w × (s ≡ w ++ drop_while is_space s)
drop_while-splits [] = ([], tt, refl)
drop_while-splits (c ∷ s) = elim (Bool-cases (is_space c)) [
  | inl e ↦ let (w, sp, q) = drop_while-splits s in (c ∷ w, (e, sp), rw e (ap (λ l. c ∷ l) q))
  | inr e ↦ ([], tt, rw e)
]

AllSpaces-append : (a b : Text) → AllSpaces a → AllSpaces b → AllSpaces (a ++ b)
AllSpaces-append [] b ha hb = hb
AllSpaces-append (c ∷ a) b ha hb = (ha.0, AllSpaces-append a b ha.1 hb)

AllSpaces-reverse : (a : Text) → AllSpaces a → AllSpaces (reverse a)
AllSpaces-reverse [] h = tt
AllSpaces-reverse (c ∷ a) h =
    rw (reverse-cons c a)
      (AllSpaces-append (reverse a) (c ∷ []) (AllSpaces-reverse a h.1) (h.0, tt))

StartsClean-prefix : (a b : Text) → StartsClean (a ++ b) → StartsClean a
StartsClean-prefix [] b h = tt
StartsClean-prefix (c ∷ a) b h = h

-- What `rtrim` cuts off is white space.
rtrim-splits : (s : Text) → (w : Text) × AllSpaces w × (s ≡ rtrim s ++ w)
unfolding rtrim
rtrim-splits s =
    let (w, sp, q) = drop_while-splits (reverse s) in
    (
      reverse w,
      AllSpaces-reverse w sp,
      sym (reverse-reverse s) ∙ ap reverse q ∙ reverse-append w (drop_while is_space (reverse s)),
    )

rtrim-IsTrimmed : (s : Text) → StartsClean s → IsTrimmed (rtrim s)
rtrim-IsTrimmed s h =
    let (w, sp, q) = rtrim-splits s in
    (
      StartsClean-prefix (rtrim s) w (subst StartsClean q h),
      unfold rtrim in
          rw (reverse-reverse (drop_while is_space (reverse s)))
            (drop_while-StartsClean (reverse s)),
    )

-- `trim` leaves no white space at either end, and what it removes there is white space alone.
pub trim_lem :
    (s : Text)
    → IsTrimmed (trim s) × ((a b : Text) × AllSpaces a × AllSpaces b × (s ≡ a ++ (trim s ++ b)))
unfolding trim
trim_lem s =
    let (a, sa, p) = drop_while-splits s in
    let (b, sb, q) = rtrim-splits (ltrim s) in
    (
      rtrim-IsTrimmed (ltrim s) (unfold ltrim in drop_while-StartsClean s),
      (a, b, sa, sb, p ∙ ap (λ t. a ++ t) (unfold ltrim in q)),
    )

-- A string with no white space at either end is left as it is.
pub trim-IsTrimmed_id : (s : Text) → IsTrimmed s → trim s ≡ s
unfolding trim
trim-IsTrimmed_id s h = rw (drop_while-id s h.0, drop_while-id (reverse s) h.1) (reverse-reverse s)

ltrim-spaces : (a t : Text) → AllSpaces a → ltrim (a ++ t) ≡ ltrim t
unfolding ltrim
ltrim-spaces [] t h = refl
ltrim-spaces (c ∷ a) t h = rw h.0 (ltrim-spaces a t h.1)

ltrim-clean : (t b : Text) → AllSpaces b → StartsClean t → IsTrimmed t → trim (t ++ b) ≡ t
unfolding trim ltrim
ltrim-clean [] b h k m = ap rtrim ((sym (ap ltrim (append-nil b))) ∙ ltrim-spaces b [] h)
ltrim-clean (c ∷ t) b h k m = rw k (
    unfold rtrim in
    rw (reverse-append (c ∷ t) b) (
      ap reverse (
        unfold ltrim in
        ltrim-spaces (reverse b) (reverse (c ∷ t)) (AllSpaces-reverse b h)
        ∙ drop_while-id (reverse (c ∷ t)) m.1)
      ∙ reverse-reverse (c ∷ t)))

-- The text between white space is found again.
pub trim-spaces :
    (a t b : Text) → AllSpaces a → AllSpaces b → IsTrimmed t → trim (a ++ (t ++ b)) ≡ t
unfolding trim
trim-spaces a t b ha hb m =
    ap rtrim (ltrim-spaces a (t ++ b) ha) ∙ unfold trim in ltrim-clean t b hb m.0 m
