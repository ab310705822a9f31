-- ===== src/Client/Redirects/Trusted.antt =====
-- Who is sent the session token, and how often.
use wayray.Base.{
  ℕ, zero, suc, ◌+◌, ◌*◌, ◌≤◌, ◌≡◌, refl, ◌⊎◌, inl, inr, String, Bool, Option, none, some, List, [],
  ◌∷◌, ◌++◌, length, string_eq, >>=-eq-some, Option-cases, arith, length-append,
}
use wayray.Base.Dict.{lookup}
use wayray.Client.Redirects.{
  Candidate, ConnectOutcome, connected, redirect, failed, Chain, reached, gave_up, try_next,
  ConnectResult, max_redirects, Network, trusted_target, redirect_target, verdict, after_hop,
  map_option, after_chain, follow, connect_following_redirects,
}

-- one of the candidates
unfoldable pub IsOneOf : Candidate → List Candidate → Type 0
IsOneOf c [] = ⊥
IsOneOf c (d ∷ ds) = (c ≡ d) ⊎ IsOneOf c ds

-- A target that the client trusts: a candidate, or a server of the trusted set at its own address,
-- under the name and with the certificate pin that the set has for it.
abbrev pub IsTrusted : Network → List Candidate → Candidate → Type 0
IsTrusted net candidates c =
    IsOneOf c candidates
    ⊎ ((known : Candidate) × (lookup c.addr net.allowed ≡ some known)
        × (c.name ≡ known.name)
        × (c.fingerprint ≡ known.fingerprint))

unfoldable pub AllTrusted : Network → List Candidate → List Candidate → Type 0
AllTrusted net candidates [] = Unit
AllTrusted net candidates (c ∷ cs) = IsTrusted net candidates c × AllTrusted net candidates cs

AllTrusted-append :
    (net : Network) (candidates xs ys : List Candidate)
    → AllTrusted net candidates xs
    → AllTrusted net candidates ys
    → AllTrusted net candidates (xs ++ ys)
unfolding AllTrusted
AllTrusted-append net candidates [] ys a b = b
AllTrusted-append net candidates (x ∷ xs) ys (t, a) b =
    (t, AllTrusted-append net candidates xs ys a b)

trusted_target-IsTrusted :
    (net : Network) (candidates : List Candidate) (addr : String) (c : Candidate)
    → trusted_target net addr ≡ some c
    → IsTrusted net candidates c
trusted_target-IsTrusted net candidates addr c e = elim (Option-cases (lookup addr net.allowed)) [
  | inl n ↦ absurd (ground (arith, n, e))
  | inr (known, f) ↦ inr (known, ground (arith, f, e), ground (arith, f, e), ground (arith, f, e))
]

redirect_target-IsTrusted :
    (net : Network) (candidates : List Candidate) (o : ConnectOutcome) (c : Candidate)
    → redirect_target net o ≡ some c
    → IsTrusted net candidates c
unfolding redirect_target
redirect_target-IsTrusted net candidates (redirect server_id addr) c e =
    let (resolved, a, b) = >>=-eq-some (net.resolve_server_addr addr) _ e in
    trusted_target-IsTrusted net candidates resolved c b
redirect_target-IsTrusted net candidates connected c e = absurd (ground (arith, e))
redirect_target-IsTrusted net candidates (failed is_final) c e = absurd (ground (arith, e))

-- the targets of one chain
abbrev Bounded : Network → List Candidate → ℕ → List Candidate → Type 0
Bounded net candidates n cs = AllTrusted net candidates cs × (length cs ≤ n)

after_hop-Bounded :
    (net : Network) (candidates : List Candidate) (left : ℕ) (target : Candidate) (end : Chain)
    (f : Candidate → Chain × List Candidate) (next : Option Candidate)
    → IsTrusted net candidates target
    → ((t : Candidate) → next ≡ some t → Bounded net candidates (left + 1) (f t).1)
    → Bounded net candidates (suc left + 1) (after_hop target end (map_option f next)).1
unfolding AllTrusted
after_hop-Bounded net candidates left target end f none t h = ((t, tt), omega arith)
after_hop-Bounded net candidates left target end f (some target') t h =
    let (trusted, few) = h target' refl in ((t, trusted), omega (arith, few))

follow-Bounded :
    (net : Network) (candidates : List Candidate) (left : ℕ) (target : Candidate) (n : ℕ)
    → IsTrusted net candidates target
    → Bounded net candidates (left + 1) (follow net left target n).1
unfolding follow AllTrusted
follow-Bounded net candidates zero target n t = ((t, tt), omega arith)
follow-Bounded net candidates (suc left) target n t =
    after_hop-Bounded net candidates left target (verdict (net.connect n target))
      (λ next. follow net left next (suc n)) (redirect_target net (net.connect n target)) t
      (λ next e.
        follow-Bounded net candidates left next (suc n)
          (redirect_target-IsTrusted net candidates (net.connect n target) next e))

after_chain-Bounded :
    (net : Network) (candidates : List Candidate) (a b : ℕ) (chain : Chain)
    (contacted : List Candidate) (later : ConnectResult × List Candidate)
    → Bounded net candidates a contacted
    → Bounded net candidates b later.1
    → Bounded net candidates (a + b) (after_chain chain contacted later).1
after_chain-Bounded net candidates a b reached contacted later (t, few) h = (t, omega (arith, few))
after_chain-Bounded net candidates a b gave_up contacted later (t, few) h = (t, omega (arith, few))
after_chain-Bounded net candidates a b try_next contacted (result, others) (t, few) (u, fewer) = (
  AllTrusted-append net candidates contacted others t u,
  omega (arith, few, fewer, length-append contacted others),
)

some-Bounded :
    (net : Network) (first_attempt : Bool) (all some_of : List Candidate) (n : ℕ)
    → ((c : Candidate) → IsOneOf c some_of → IsOneOf c all)
    → Bounded net all
        (length some_of * 4)
        (connect_following_redirects net first_attempt some_of n).1
unfolding connect_following_redirects AllTrusted IsOneOf
some-Bounded net first_attempt all [] n h = (tt, omega arith)
some-Bounded net first_attempt all (c ∷ cs) n h =
    let (chain, contacted) = follow net max_redirects c n in
    let now = follow-Bounded net all max_redirects c n (inl (h c (inl refl))) in
    let later = some-Bounded net first_attempt all cs (n + length contacted) (λ d e. h d (inr e)) in
    let (t, few) =
      after_chain-Bounded net all 4 (length cs * 4) chain contacted
        (connect_following_redirects net first_attempt cs (n + length contacted)) now later in
    (t, omega (arith, few))

-- However servers answer, the session token is sent only to servers that the client trusts: to its
-- candidates, and to servers of its trusted set at their own address, under the name and with the
-- certificate pin of that set. No more than four connections are made for each candidate.
pub connect_following_redirects-AllTrusted :
    (net : Network) (first_attempt : Bool) (candidates : List Candidate) (n : ℕ)
    → let contacted = (connect_following_redirects net first_attempt candidates n).1 in
      AllTrusted net candidates contacted × (length contacted ≤ length candidates * 4)
connect_following_redirects-AllTrusted net first_attempt candidates n =
    some-Bounded net first_attempt candidates candidates n (λ c e. e)
