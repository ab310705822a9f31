-- ===== src/Wire/Messages/Clipboard/Cap.antt =====
-- The cap on clipboard payloads: its size, and what is left of a text.
use mathlib.Core.List.{append_assoc, append-nil}
use wayray.Base.{
  ℕ, zero, suc, ◌+◌, ◌-◌, ◌≤◌, ◌≡◌, refl, sym, ◌∙◌, ap, subst, true, false, not, List, [], ◌∷◌,
  ◌++◌, length, take, leb, leb→le, nat_eq, arith, Bool-cases, inl, inr,
}
use wayray.Wire.Codec.{Bytes}
use wayray.Wire.Messages.Clipboard.{
  Mime, is_text_mime, max_clipboard_data, is_continuation, pop_split, reverse_onto, reversed,
  cap_clipboard_payload,
}

-- The bytes of a character: one that is ASCII, or a leading byte with its continuation bytes.
pub data Char : Type 0 where
  ascii : ℕ → Char
  wide : ℕ → Bytes → Char

abbrev pub AllContinuation : Bytes → Type 0
AllContinuation [] = Unit
AllContinuation (b ∷ bs) = (is_continuation b ≡ true) × AllContinuation bs

abbrev pub IsChar : Char → Type 0
IsChar (ascii b) = (is_continuation b ≡ false) × (leb 0x80 b ≡ false)
IsChar (wide b bs) = (is_continuation b ≡ false) × (leb 0x80 b ≡ true) × AllContinuation bs

abbrev pub IsText : List Char → Type 0
IsText [] = Unit
IsText (c ∷ cs) = IsChar c × IsText cs

abbrev pub bytes_of : Char → Bytes
bytes_of (ascii b) = b ∷ []
bytes_of (wide b bs) = b ∷ bs

-- the bytes of a text that is given from its last character to its first
unfoldable pub text_bytes : List Char → Bytes
text_bytes [] = []
text_bytes (c ∷ cs) = text_bytes cs ++ bytes_of c

reverse_onto-append :
    (xs ys acc : Bytes) → reverse_onto acc (xs ++ ys) ≡ reverse_onto (reverse_onto acc xs) ys
unfolding reverse_onto
reverse_onto-append [] ys acc = refl
reverse_onto-append (x ∷ xs) ys acc = reverse_onto-append xs ys (x ∷ acc)

reverse_onto-reversed : (xs acc : Bytes) → reverse_onto acc xs ≡ reversed xs ++ acc
unfolding reverse_onto
reverse_onto-reversed [] acc = refl
reverse_onto-reversed (x ∷ xs) acc =
    reverse_onto-reversed xs (x ∷ acc)
    ∙ sym (
        ap (λ l. l ++ acc) (reverse_onto-reversed xs (x ∷ []))
        ∙ append_assoc (reversed xs) (x ∷ []) acc)

reversed-reverse_onto : (xs acc : Bytes) → reversed (reverse_onto acc xs) ≡ reverse_onto xs acc
unfolding reverse_onto
reversed-reverse_onto [] acc = refl
reversed-reverse_onto (x ∷ xs) acc = reversed-reverse_onto xs (x ∷ acc)

pop_split-continuation :
    (bs acc rest : Bytes)
    → AllContinuation bs
    → pop_split acc ≡ rest
    → pop_split (reverse_onto acc bs) ≡ rest
unfolding pop_split reverse_onto
pop_split-continuation [] acc rest h e = e
pop_split-continuation (b ∷ bs) acc rest (c, h) e =
    pop_split-continuation bs (b ∷ acc) rest h (rw c e)

-- What is popped behind a character boundary: nothing, or a leading byte and continuation bytes.
data IsSplit : Bytes → Type 0 where
  nothing : IsSplit []
  some_of : (b : ℕ) (bs : Bytes) → IsChar (wide b bs) → IsSplit (b ∷ bs)

pop_split-split :
    (xs : Bytes) (b : ℕ) (bs : Bytes)
    → IsChar (wide b bs)
    → reversed (pop_split (reversed (xs ++ b ∷ bs))) ≡ xs
unfolding pop_split
pop_split-split xs b bs (c, high, h) =
    let lead : pop_split (b ∷ reversed xs) ≡ reversed xs = rw (c, high) refl in
    let all : pop_split (reversed (xs ++ b ∷ bs)) ≡ reversed xs =
      ap pop_split (reverse_onto-append xs (b ∷ bs) [])
      ∙ unfold reverse_onto in pop_split-continuation bs (b ∷ reversed xs) (reversed xs) h lead in
    ap reversed all ∙ unfold reverse_onto in reversed-reverse_onto xs []

pop_split-ascii :
    (xs : Bytes) (b : ℕ)
    → IsChar (ascii b)
    → reversed (pop_split (reversed (xs ++ b ∷ []))) ≡ xs ++ b ∷ []
unfolding pop_split
pop_split-ascii xs b (c, low) =
    let whole : reversed (xs ++ b ∷ []) ≡ b ∷ reversed xs =
      reverse_onto-append xs (b ∷ []) [] ∙ unfold reverse_onto in refl in
    let all : pop_split (reversed (xs ++ b ∷ [])) ≡ b ∷ reversed xs =
      ap pop_split whole ∙ rw (c, low) refl in
    ap reversed all
    ∙ sym (ap reversed whole)
    ∙ unfold reverse_onto in reversed-reverse_onto (xs ++ b ∷ []) []

take-nil : (n : ℕ) → take {A = ℕ} n [] ≡ []
take-nil zero = refl
take-nil (suc n) = refl

take-le : (n : ℕ) (xs ys : Bytes) → n ≤ length xs → take n (xs ++ ys) ≡ take n xs
take-le zero xs ys h = refl
take-le (suc n) [] ys h = absurd (omega arith)
take-le (suc n) (x ∷ xs) ys h = ap (◌∷◌ x) (take-le n xs ys (omega arith))

take-ge :
    (n : ℕ) (xs ys : Bytes) → length xs ≤ n → take n (xs ++ ys) ≡ xs ++ take (n - length xs) ys
take-ge n [] ys h = ap (λ k. take k ys) (omega arith)
take-ge zero (x ∷ xs) ys h = absurd (omega arith)
take-ge (suc n) (x ∷ xs) ys h =
    let less : suc n - length (x ∷ xs) ≡ n - length xs = omega arith in
    rw less (ap (◌∷◌ x) (take-ge n xs ys (omega arith)))

take-AllContinuation : (n : ℕ) (bs : Bytes) → AllContinuation bs → AllContinuation (take n bs)
take-AllContinuation zero bs h = tt
take-AllContinuation (suc n) [] h = tt
take-AllContinuation (suc n) (b ∷ bs) (c, h) = (c, take-AllContinuation n bs h)

-- The characters of a text, but for some of the last ones.
pub data IsStart : List Char → List Char → Type 0 where
  whole : {cs : List Char} → IsStart cs cs
  without : {ds cs : List Char} {c : Char} → IsStart ds cs → IsStart ds (c ∷ cs)

IsStart-trans : {bs cs ds : List Char} → IsStart bs cs → IsStart cs ds → IsStart bs ds
IsStart-trans h whole = h
IsStart-trans h (without g) = without (IsStart-trans h g)

start-IsText : {ds cs : List Char} → IsStart ds cs → IsText cs → IsText ds
start-IsText whole h = h
start-IsText (without s) h = start-IsText s h.1

-- A cut of a text: whole characters, and a split one.
abbrev Cut : List Char → Bytes → Type 0
Cut cs xs = (ds : List Char) × (p : Bytes) × IsStart ds cs × (xs ≡ text_bytes ds ++ p) × IsSplit p

char-Cut :
    (n : ℕ) (c : Char) (cs : List Char)
    → IsChar c
    → Cut (c ∷ cs) (text_bytes cs ++ take n (bytes_of c))
unfolding text_bytes
char-Cut zero c cs h = (cs, [], without whole, refl, nothing)
char-Cut (suc n) (ascii b) cs h =
    (ascii b ∷ cs, [], whole, rw (take-nil n) (sym (append-nil (text_bytes cs ++ b ∷ []))), nothing)
char-Cut (suc n) (wide b bs) cs (c, high, h) = (
  cs,
  b ∷ take n bs,
  without whole,
  refl,
  some_of b (take n bs) (c, high, take-AllContinuation n bs h),
)

take-Cut : (n : ℕ) (cs : List Char) → IsText cs → Cut cs (take n (text_bytes cs))
unfolding text_bytes
take-Cut n [] h = ([], [], whole, take-nil n, nothing)
take-Cut n (c ∷ cs) (h, hs) = elim (Bool-cases (leb (length (text_bytes cs)) n)) [
  | inl long ↦
      subst (Cut (c ∷ cs)) (sym (take-ge n (text_bytes cs) (bytes_of c) (ground arith)))
        (char-Cut (n - length (text_bytes cs)) c cs h)
  | inr short ↦
      let (ds, p, start, e, s) = take-Cut n cs hs in
      (ds, p, without start, take-le n (text_bytes cs) (bytes_of c) (ground arith) ∙ e, s)
]

-- What is left of a cut ends at a character's end.
abbrev pub Kept : List Char → Bytes → Type 0
Kept cs xs = (ds : List Char) × IsStart ds cs × (xs ≡ text_bytes ds)

pop_split-text :
    (cs : List Char) → IsText cs → Kept cs (reversed (pop_split (reversed (text_bytes cs))))
unfolding text_bytes
pop_split-text [] h = ([], whole, unfold pop_split reverse_onto in refl)
pop_split-text (ascii b ∷ cs) h = (ascii b ∷ cs, whole, pop_split-ascii (text_bytes cs) b h.0)
pop_split-text (wide b bs ∷ cs) h = (cs, without whole, pop_split-split (text_bytes cs) b bs h.0)

pop_split-Cut :
    (cs : List Char) (p : Bytes)
    → IsText cs
    → IsSplit p
    → Kept cs (reversed (pop_split (reversed (text_bytes cs ++ p))))
pop_split-Cut cs xs h (some_of b bs c) = (cs, whole, pop_split-split (text_bytes cs) b bs c)
pop_split-Cut cs xs h nothing = rw (append-nil (text_bytes cs)) (pop_split-text cs h)

take-Kept :
    (n : ℕ) (cs : List Char)
    → IsText cs
    → Kept cs (reversed (pop_split (reversed (take n (text_bytes cs)))))
take-Kept n cs h =
    let (ds, p, start, e, s) = take-Cut n cs h in
    let (bs, first, f) = pop_split-Cut ds p (start-IsText start h) s in
    (bs, IsStart-trans first start, ap (λ xs. reversed (pop_split (reversed xs))) e ∙ f)

length-take-le : (n : ℕ) (xs : Bytes) → length (take n xs) ≤ n
length-take-le zero xs = omega arith
length-take-le (suc n) [] = omega arith
length-take-le (suc n) (x ∷ xs) = omega (arith, length-take-le n xs)

length-reverse_onto : (xs acc : Bytes) → length (reverse_onto acc xs) ≡ length xs + length acc
unfolding reverse_onto
length-reverse_onto [] acc = omega arith
length-reverse_onto (x ∷ xs) acc = omega (arith, length-reverse_onto xs (x ∷ acc))

length-pop_split : (xs : Bytes) → length (pop_split xs) ≤ length xs
unfolding pop_split
length-pop_split [] = omega arith
length-pop_split (b ∷ bs) = ground (arith, length-pop_split bs)

cut_short : (n : ℕ) (xs : Bytes) → length (reversed (pop_split (reversed (take n xs)))) ≤ n
cut_short n xs = omega (
  arith,
  length-reverse_onto (pop_split (reversed (take n xs))) [],
  length-pop_split (reversed (take n xs)),
  length-reverse_onto (take n xs) [],
  length-take-le n xs,
)

-- Whatever the payload and its type, what goes over the wire is at most the cap, and it is marked as
-- cut exactly if it was longer.
pub cap_clipboard_payload_bound :
    (payload : Bytes) (mime : Mime)
    → (length (cap_clipboard_payload payload mime).0 ≤ max_clipboard_data)
      × ((cap_clipboard_payload payload mime).1 ≡ not (leb (length payload) max_clipboard_data))
unfolding cap_clipboard_payload
cap_clipboard_payload_bound payload mime =
    elim (Bool-cases (leb (length payload) max_clipboard_data)) [
      | inl short ↦ rw short (leb→le (length payload) max_clipboard_data short, refl)
      | inr long ↦ elim (Bool-cases (is_text_mime mime)) [
        | inl text ↦ rw (long, text) (cut_short max_clipboard_data payload, refl)
        | inr other ↦ rw (long, other) (length-take-le max_clipboard_data payload, refl)
      ]
    ]

-- A text payload is cut between two characters: what is left are its first characters, whole.
pub cap_clipboard_payload-text :
    (cs : List Char) (mime : Mime)
    → IsText cs
    → is_text_mime mime ≡ true
    → Kept cs (cap_clipboard_payload (text_bytes cs) mime).0
unfolding cap_clipboard_payload
cap_clipboard_payload-text cs mime h text =
    elim (Bool-cases (leb (length (text_bytes cs)) max_clipboard_data)) [
      | inl short ↦ rw short (cs, whole, refl)
      | inr long ↦ rw (long, text) (take-Kept max_clipboard_data cs h)
    ]
