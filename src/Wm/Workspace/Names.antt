-- ===== src/Wm/Workspace/Names.antt =====
-- The order of the names of workspaces, and the name that `destroy_workspace` falls back to.
use wayray.Base.{
  String, ◌≡◌, refl, inl, inr, true, false, Option, none, some, List, [], ◌∷◌, arith, Option-cases,
  Bool-cases, string_eq, if◌then◌else◌, subst,
}
use wayray.Base.Member.{contains}
use wayray.Wm.Workspace.{codes_ltb, min_key}

-- A name among these that no other one of them comes before, or none if there are none.
abbrev pub IsLeast : Option String → List String → Type 0
IsLeast none names = names ≡ []
IsLeast (some m) names =
    (contains m names ≡ true) × ((k : String) → contains k names ≡ true → codes_ltb k m ≡ false)

codes_ltb_irrefl : (s : String) → codes_ltb s s ≡ false
unfolding codes_ltb
codes_ltb_irrefl String.[] = refl
codes_ltb_irrefl (String.◌∷◌ c s) = ground (arith, codes_ltb_irrefl s)

codes_ltb_asym : (s t : String) → codes_ltb s t ≡ true → codes_ltb t s ≡ false
unfolding codes_ltb
codes_ltb_asym String.[] String.[] h = refl
codes_ltb_asym String.[] (String.◌∷◌ d t) h = refl
codes_ltb_asym (String.◌∷◌ c s) String.[] h = absurd (ground (arith, h))
codes_ltb_asym (String.◌∷◌ c s) (String.◌∷◌ d t) h = ground (arith, h, codes_ltb_asym s t)

codes_ltb_below :
    (x k m : String) → codes_ltb m k ≡ false → codes_ltb x k ≡ true → codes_ltb x m ≡ true
unfolding codes_ltb
codes_ltb_below String.[] String.[] m g h = absurd (ground (arith, h))
codes_ltb_below (String.◌∷◌ b r) String.[] m g h = absurd (ground (arith, h))
codes_ltb_below x (String.◌∷◌ d t) String.[] g h = absurd (ground (arith, g))
codes_ltb_below String.[] (String.◌∷◌ d t) (String.◌∷◌ c s) g h = refl
codes_ltb_below (String.◌∷◌ b r) (String.◌∷◌ d t) (String.◌∷◌ c s) g h =
    ground (arith, g, h, codes_ltb_below r t s)

-- The least name among `k` and names of which `m` is the least.
codes_ltb-IsLeast :
    (k m : String) (ks : List String)
    → IsLeast (some m) ks
    → IsLeast (if codes_ltb m k then some m else some k) (k ∷ ks)
unfolding contains
codes_ltb-IsLeast k m ks (listed, least) = elim (Bool-cases (codes_ltb m k)) [
  | inl e ↦ rw e (ground (arith, listed), λ x h. ground (arith, h, least x, codes_ltb_asym m k e))
  | inr e ↦
      rw e (
        ground arith,
        λ x h. ground (arith, h, least x, codes_ltb_irrefl k, codes_ltb_below x k m e),
      )
]

pub min_key-IsLeast : (names : List String) → IsLeast (min_key names) names
unfolding min_key contains
min_key-IsLeast [] = refl
min_key-IsLeast (k ∷ ks) = elim (Option-cases (min_key ks)) [
  | inl e ↦
      let none_left : ks ≡ [] = subst (λ o. IsLeast o ks) e (min_key-IsLeast ks) in
      rw (e, none_left) (ground arith, λ x h. ground (arith, h, codes_ltb_irrefl k))
  | inr (m, e) ↦
      let least : IsLeast (some m) ks = subst (λ o. IsLeast o ks) e (min_key-IsLeast ks) in
      rw e (codes_ltb-IsLeast k m ks least)
]
