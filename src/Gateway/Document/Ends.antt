-- ===== src/Gateway/Document/Ends.antt =====
-- The loops over the document end: what each function leaves is no longer than what it was given.
use native.Mathlib.Omega.{arith}
use vocastock.Prelude.{
  ℕ, suc, ◌-◌, ◌≤◌, ◌<◌, ◌≡◌, Char, code, Bool, true, false, ◌||◌, [], ◌∷◌, length, ◌==◌,
  if◌then◌else◌, if_cases, ok, err, ◌>>=◌, Round, loop, Progress, loop_total,
}
use vocastock.Gateway.Document.Scan.{
  Document, refused, out_of_fuel, Scan, ended, skip_comment, string_tail, skip_string,
  skip_ignored_round, skip_ignored, skip_group_round, skip_group, go_on, is_ascii_whitespace,
}

-- The scan does not run out of fuel, and what it gives satisfies `P`.
abbrev pub Ends : {A : Type 0} → (A → Type 0) → Scan A → Type 0
Ends P (ok a) = P a
Ends P (err (refused failure)) = Unit
Ends P (err out_of_fuel) = ⊥

pub Ends-weaken :
    {A : Type 0} {P Q : A → Type 0} (r : Scan A) → Ends P r → ((a : A) → P a → Q a) → Ends Q r
Ends-weaken (ok a) h k = k a h
Ends-weaken (err (refused failure)) h k = tt
Ends-weaken (err out_of_fuel) h k = absurd h

pub if-Keeps :
    {A : Type 0} (P : A → Type 0) (b : Bool) {x y : A} → P x → P y → P (if b then x else y)
if-Keeps P true h k = h
if-Keeps P false h k = k

pub Ends-bind :
    {A B : Type 0} (P : A → Type 0) (Q : B → Type 0) (scan : Scan A) (later : A → Scan B)
    → Ends P scan
    → ((given : A) → P given → Ends Q (later given))
    → Ends Q (scan >>= later)
Ends-bind P Q (ok given) later ends goes_on = goes_on given ends
Ends-bind P Q (err (refused failure)) later ends goes_on = tt
Ends-bind P Q (err out_of_fuel) later ends goes_on = absurd ends

-- No longer than `s`.
abbrev pub Within : Document → Document → Type 0
Within s rest = length rest ≤ length s

pub Ends-ended :
    {S A : Type 0} (body : S → Round S (Scan A)) (P : S → Type 0) (Q : A → Type 0) (measure : S → ℕ)
    (fuel : ℕ) (s : S)
    → ((t : S) → P t → Progress body P (Ends Q) measure t (body t))
    → measure s < fuel
    → P s
    → Ends Q (ended (loop body fuel s))
Ends-ended body P Q measure fuel s step m p =
    let (r, h, q) = loop_total body P (Ends Q) measure step fuel s m p in rw h q

pub skip_comment_shorter : (s : Document) → length (skip_comment s) ≤ length s
unfolding skip_comment
skip_comment_shorter [] = omega arith
skip_comment_shorter (c ∷ s) = ground (arith, skip_comment_shorter s)

pub string_tail-Ends : (s : Document) → Ends (Within s) (string_tail s)
unfolding string_tail
string_tail-Ends [] = tt
string_tail-Ends (c ∷ []) = if-Keeps (Ends (Within (c ∷ []))) (code c == b'"') (omega arith) tt
string_tail-Ends (c ∷ d ∷ s) =
    if-Keeps (Ends (Within (c ∷ d ∷ s))) (code c == b'\\')
      (Ends-weaken (string_tail s) (string_tail-Ends s) (λ t m. omega (arith, m)))
      (if-Keeps (Ends (Within (c ∷ d ∷ s))) (code c == b'"') (omega arith)
        (Ends-weaken (string_tail (d ∷ s)) (string_tail-Ends (d ∷ s)) (λ t m. omega (arith, m))))

pub skip_string-Ends : (c : Char) (s : Document) → Ends (Within s) (skip_string (c ∷ s))
unfolding skip_string
skip_string-Ends c s = string_tail-Ends s

-- The comment's own `#` is passed over too.
pub skip_comment_less :
    (c : Char) (s : Document) → (code c == b'#') ≡ true → length (skip_comment (c ∷ s)) ≤ length s
unfolding skip_comment
skip_comment_less c s hash = ground (arith, hash, skip_comment_shorter s)

skip_ignored_round-Progress :
    (s t : Document)
    → Within s t
    → Progress skip_ignored_round
        (Within s)
        (Ends (Within s))
        (λ u. length u)
        t
        (skip_ignored_round t)
unfolding skip_ignored_round
skip_ignored_round-Progress s [] within = omega arith
skip_ignored_round-Progress s (c ∷ t) within =
    let goal = Progress skip_ignored_round (Within s) (Ends (Within s)) (λ u. length u) (c ∷ t) in
    if_cases goal (is_ascii_whitespace c || code c == b',')
      (λ _. (omega (arith, within), omega arith))
      (λ _.
        if_cases goal (code c == b'#')
          (λ hash.
            let less = skip_comment_less c t hash in
            (omega (arith, within, less), omega (arith, less)))
          (λ _. within))

pub skip_ignored-Ends : (s : Document) → Ends (Within s) (skip_ignored s)
unfolding skip_ignored
skip_ignored-Ends s =
    Ends-ended skip_ignored_round (Within s) (Within s) (λ u. length u) (suc (length s)) s
      (skip_ignored_round-Progress s) (omega arith) (omega arith)

-- What a group leaves is shorter than the document, which has the group's last character.
pub go_on-Progress :
    {S R : Type 0} (body : S → Round S (Scan R)) (P : S → Type 0) (Q : R → Type 0) (measure : S → ℕ)
    (before : S) (bound : Document → Type 0) (r : Scan Document) (state : Document → S)
    → Ends bound r
    → ((rest : Document) → bound rest → P (state rest) × (measure (state rest) < measure before))
    → Progress body P (Ends Q) measure before (go_on r state)
go_on-Progress body P Q measure before bound (ok rest) state h k = k rest h
go_on-Progress body P Q measure before bound (err (refused failure)) state h k = tt
go_on-Progress body P Q measure before bound (err out_of_fuel) state h k = absurd h

skip_group_round-Progress :
    (opening closing : ℕ) (s : Document) (state : ℕ × Document)
    → Within s state.1
    → Progress
        (skip_group_round opening closing)
        (λ u. Within s u.1)
        (Ends (λ rest. length rest < length s))
        (λ u. length u.1)
        state
        (skip_group_round opening closing state)
unfolding skip_group_round
skip_group_round-Progress opening closing s (depth, []) within = tt
skip_group_round-Progress opening closing s (depth, c ∷ t) within =
    let goal =
      Progress (skip_group_round opening closing) (λ u. Within s u.1)
        (Ends (λ rest. length rest < length s)) (λ u. length u.1) (depth, c ∷ t) in
    if_cases goal (code c == b'"')
      (λ _.
        go_on-Progress (skip_group_round opening closing) (λ u. Within s u.1)
          (λ rest. length rest < length s) (λ u. length u.1) (depth, c ∷ t) (Within t)
          (skip_string (c ∷ t)) (λ rest. (depth, rest)) (skip_string-Ends c t)
          (λ rest m. (omega (arith, m, within), omega (arith, m))))
      (λ _.
        if_cases goal (code c == opening) (λ _. (omega (arith, within), omega arith))
          (λ _.
            if_cases goal (code c == closing)
              (λ _.
                if_cases goal (depth - 1 == 0) (λ _. omega (arith, within))
                  (λ _. (omega (arith, within), omega arith)))
              (λ _.
                if_cases goal (code c == b'#')
                  (λ hash.
                    let less = skip_comment_less c t hash in
                    (omega (arith, within, less), omega (arith, less)))
                  (λ _. (omega (arith, within), omega arith)))))

pub skip_group-Ends :
    (opening closing : ℕ) (s : Document)
    → Ends (λ rest. length rest < length s) (skip_group opening closing s)
unfolding skip_group
skip_group-Ends opening closing s =
    Ends-ended (skip_group_round opening closing) (λ u. Within s u.1)
      (λ rest. length rest < length s) (λ u. length u.1) (suc (length s)) (0, s)
      (skip_group_round-Progress opening closing s) (omega arith) (omega arith)
