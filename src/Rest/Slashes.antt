-- ===== src/Rest/Slashes.antt =====
-- What `join_paths` does with the slashes where the two paths meet.
use mathlib.Core.List.{reverse, reverse-cons, reverse-reverse}
use ironsoft.Prelude.{
  ℕ, false, ◌≡◌, ◌≢◌, refl, sym, ap, ◌∙◌, [], ◌∷◌, ◌++◌, arith, All, ◌==◌, Bool-cases, inl, inr,
  ◌⊎◌, subst, All-append,
}
use ironsoft.Text.{Text, is_empty}
use ironsoft.Rest.Path.{
  ensure_leading_slash, trim_back, trim_trailing_slash, drop_slashes, join_paths,
}

abbrev pub StartsWithSlash : Text → Type 0
StartsWithSlash [] = ⊥
StartsWithSlash (c ∷ path) = c ≡ b'/'

abbrev pub NoSlashInFront : Text → Type 0
NoSlashInFront [] = Unit
NoSlashInFront (c ∷ path) = c ≢ b'/'

-- Only slashes, or nothing at all.
abbrev pub OnlySlashes : Text → Type 0
OnlySlashes = All (λ c. c ≡ b'/')

filled_test : (t : Text) → t ≢ [] → is_empty t ≡ false
unfolding is_empty
filled_test [] h = absurd (h refl)
filled_test (_ ∷ _) h = refl

drop_slashes-NoSlashInFront : (path : Text) → NoSlashInFront (drop_slashes path)
unfolding drop_slashes
drop_slashes-NoSlashInFront [] = tt
drop_slashes-NoSlashInFront (c ∷ path) = ground (arith, drop_slashes-NoSlashInFront path)

-- The loop ends with one byte, or with a byte that is no slash.
abbrev pub Trimmed : Text → Type 0
Trimmed [] = Unit
Trimmed (c ∷ []) = Unit
Trimmed (c ∷ d ∷ path) = c ≢ b'/'

trim_back-Trimmed : (path : Text) → Trimmed (trim_back path)
unfolding trim_back
trim_back-Trimmed [] = tt
trim_back-Trimmed (c ∷ []) = tt
trim_back-Trimmed (c ∷ d ∷ path) = elim (Bool-cases (c == b'/')) [
  | inl slash ↦ rw slash (trim_back-Trimmed (d ∷ path))
  | inr other ↦ rw other (ground arith)
]

-- A path with no byte but slashes is trimmed to a single slash.
trim_back-OnlySlashes :
    (c : ℕ) (path : Text) → OnlySlashes (c ∷ path) → trim_back (c ∷ path) ≡ b'/' ∷ []
unfolding trim_back
trim_back-OnlySlashes c [] h = ap (λ (x : ℕ). x ∷ []) h.0
trim_back-OnlySlashes c (d ∷ path) h = ground (arith, trim_back-OnlySlashes d path h.1)

trim_back-cases : (path : Text) → NoSlashInFront (trim_back path) ⊎ OnlySlashes path
unfolding trim_back
trim_back-cases [] = inr tt
trim_back-cases (c ∷ []) = ground arith
trim_back-cases (c ∷ d ∷ path) = elim (Bool-cases (c == b'/')) [
  | inl slash ↦ rw slash (ground (arith, trim_back-cases (d ∷ path)))
  | inr other ↦ rw other (inl (ground arith))
]

OnlySlashes-reverse : (path : Text) → OnlySlashes path → OnlySlashes (reverse path)
OnlySlashes-reverse [] h = tt
OnlySlashes-reverse (c ∷ path) h =
    rw (reverse-cons c path)
      (All-append (λ x. x ≡ b'/') (reverse path) (c ∷ []) (OnlySlashes-reverse path h.1) (h.0, tt))

-- Trimmed to a single slash, where it has any byte.
trim_back_to_one : (path : Text) → path ≢ [] → OnlySlashes path → trim_back path ≡ b'/' ∷ []
trim_back_to_one [] ne h = absurd (ne refl)
trim_back_to_one (c ∷ path) ne h = trim_back-OnlySlashes c path h

reverse-ne-nil : (path : Text) → path ≢ [] → reverse path ≢ []
reverse-ne-nil path ne e = ne (sym (reverse-reverse path) ∙ ap reverse e)

ensure_leading_slash-ne-nil : (path : Text) → ensure_leading_slash path ≢ []
unfolding ensure_leading_slash
ensure_leading_slash-ne-nil [] e = cc
ensure_leading_slash-ne-nil (c ∷ path) e = ground arith

of_leading_slash : (path : Text) → OnlySlashes (ensure_leading_slash path) → OnlySlashes path
unfolding ensure_leading_slash
of_leading_slash [] h = tt
of_leading_slash (c ∷ path) h = ground arith

-- The base of the joined path: the left path with a slash in front and none behind.
abbrev pub base_of : Text → Text
base_of lhs = trim_trailing_slash (ensure_leading_slash lhs)

base_of-cases :
    (lhs : Text)
    → NoSlashInFront (reverse (base_of lhs)) ⊎ (OnlySlashes lhs × (base_of lhs ≡ b'/' ∷ []))
unfolding trim_trailing_slash
base_of-cases lhs = elim (trim_back-cases (reverse (ensure_leading_slash lhs))) [
  | inl kept ↦ inl (rw (reverse-reverse (trim_back (reverse (ensure_leading_slash lhs)))) kept)
  | inr slashes ↦
      let only =
        subst OnlySlashes (reverse-reverse (ensure_leading_slash lhs))
          (OnlySlashes-reverse _ slashes) in
      inr (
        of_leading_slash lhs only,
        ap reverse
            (trim_back_to_one _ (reverse-ne-nil _ (ensure_leading_slash-ne-nil lhs)) slashes),
      )
]

join_paths_shape :
    (lhs rhs : Text)
    → drop_slashes rhs ≢ []
    → join_paths lhs rhs ≡ base_of lhs ++ b'/' ∷ drop_slashes rhs
unfolding join_paths
join_paths_shape lhs rhs ne = rw (filled_test _ ne)

-- Where the right path has a byte that is no slash, the paths are joined by a single slash, with none
-- at the end of the base or at the front of the tail; except where the left path has only slashes,
-- or none: then the result begins with two.
pub join_paths-cases :
    (lhs rhs : Text)
    → drop_slashes rhs ≢ []
    → NoSlashInFront (drop_slashes rhs)
      × ((NoSlashInFront (reverse (base_of lhs))
            × (join_paths lhs rhs ≡ base_of lhs ++ b'/' ∷ drop_slashes rhs))
          ⊎ (OnlySlashes lhs × (join_paths lhs rhs ≡ b'/' ∷ b'/' ∷ drop_slashes rhs)))
join_paths-cases lhs rhs ne = (
  drop_slashes-NoSlashInFront rhs,
  elim (base_of-cases lhs) [
    | inl kept ↦ inl (kept, join_paths_shape lhs rhs ne)
    | inr (only, one) ↦
        inr (only, join_paths_shape lhs rhs ne ∙ ap (λ t. t ++ b'/' ∷ drop_slashes rhs) one)
  ],
)
