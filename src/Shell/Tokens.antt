-- ===== src/Shell/Tokens.antt =====
-- The tokens of a text: what the loop over strtok_r in myshell_parser.c goes through.
use mathlib.Core.List.{append-nil, append_assoc}
use ec.Base.{
  ℕ, zero, suc, ◌+◌, ◌*◌, ◌≤◌, ◌<◌, ◌≡◌, refl, sym, ◌∙◌, ap, inl, inr, Bool, true, false, Option,
  none, some, List, [], ◌∷◌, ◌++◌, if◌then◌else◌, Bool-cases, arith,
}
use ec.Base.Blocks.{length}
use ec.Shell.Text.{Text, skip, token, first_token, strtok, tokens_from, tokens}

-- The maximal runs of characters that are no delimiters, where `run` holds those just read.
abbrev pub close : Text → List Text → List Text
close [] ws = ws
close (c ∷ t) ws = (c ∷ t) ∷ ws

abbrev pub is_empty : Text → Bool
is_empty [] = true
is_empty (c ∷ t) = false

unfoldable pub runs_from : (ℕ → Bool) → Text → Text → List Text
runs_from d run [] = close run []
runs_from d run (c ∷ s) =
    let more = runs_from d (run ++ (c ∷ [])) s in
    let next = close run (runs_from d [] s) in if d c then next else more

abbrev pub runs : (ℕ → Bool) → Text → List Text
runs d s = runs_from d [] s

skip-here : (d : ℕ → Bool) (c : ℕ) (s : Text) → d c ≡ false → skip d (c ∷ s) ≡ c ∷ s
unfolding skip
skip-here d c s e = rw e

runs-skip : (d : ℕ → Bool) (s : Text) → runs d (skip d s) ≡ runs d s
unfolding runs_from skip
runs-skip d [] = refl
runs-skip d (c ∷ s) = elim (Bool-cases (d c)) [
  | inl e ↦ rw e (runs-skip d s)
  | inr e ↦ ap (runs_from d []) (skip-here d c s e)
]

close-append :
    (run : Text) (c : ℕ) (ws : List Text) → close (run ++ (c ∷ [])) ws ≡ (run ++ (c ∷ [])) ∷ ws
close-append [] c ws = refl
close-append (a ∷ run) c ws = refl

runs-token :
    (d : ℕ → Bool) (run s : Text)
    → runs_from d run s ≡ close (run ++ (token d s).0) (runs d (token d s).1)
unfolding runs_from token
runs-token d run [] = rw append-nil
runs-token d run (c ∷ s) = elim (Bool-cases (d c)) [
  | inl e ↦ rw (e, append-nil)
  | inr e ↦ rw e (runs-token d (run ++ (c ∷ [])) s ∙ rw append_assoc)
]

token-length : (d : ℕ → Bool) (s : Text) → length (token d s).1 ≤ length s
unfolding token
token-length d [] = omega arith
token-length d (c ∷ s) = ground (arith, token-length d s)

skip-length : (d : ℕ → Bool) (s : Text) → length (skip d s) ≤ length s
unfolding skip
skip-length d [] = omega arith
skip-length d (c ∷ s) = ground (arith, skip-length d s)

-- What `skip` stops at is no delimiter.
skip-stops : (d : ℕ → Bool) (s : Text) (c : ℕ) (r : Text) → skip d s ≡ c ∷ r → d c ≡ false
unfolding skip
skip-stops d [] c r e = cc
skip-stops d (a ∷ s) c r e = elim (Bool-cases (d a)) [
  | inl f ↦ skip-stops d s c r (rw f at e)
  | inr f ↦ ap d (cc (rw f at e)) ∙ f
]

first_lem :
    (d : ℕ → Bool) (c : ℕ) (s : Text)
    → d c ≡ false
    → (t : Text) × (r : Text) × (token d (c ∷ s) ≡ (c ∷ t, r))
      × (length r ≤ length s)
      × (runs d (c ∷ s) ≡ (c ∷ t) ∷ runs d r)
unfolding runs_from token
first_lem d c s e =
    ((token d s).0, (token d s).1, rw e, token-length d s, rw e (runs-token d (c ∷ []) s))

-- With enough fuel the loop over `strtok_r` goes through the maximal runs without delimiters, in order.
tokens_from-eq-runs :
    (fuel : ℕ) (d : ℕ → Bool) (s : Text) → length s < fuel → tokens_from fuel d s ≡ runs d s
unfolding tokens_from strtok runs_from
tokens_from-eq-runs zero d s h = absurd (omega arith)
tokens_from-eq-runs (suc fuel) d s h = split (λ r k. tokens_from-eq-runs fuel d r k) (skip d s) refl
  where
    loop : Option (Text × Text) → List Text
    loop o = elim o [ none ↦ [] | some (t, r) ↦ t ∷ tokens_from fuel d r ]

    split :
        ((r : Text) → length r < fuel → tokens_from fuel d r ≡ runs d r)
        → (x : Text) → skip d s ≡ x
        → loop (first_token d (skip d s)) ≡ runs d s
    split ih [] e = ap (λ x. loop (first_token d x)) e ∙ sym (ap (runs d) e) ∙ runs-skip d s
    split ih (c ∷ x) e =
        let (t, r, f, k, g) = first_lem d c x (skip-stops d s c x e) in
        ap (λ x. loop (first_token d x)) e
        ∙ ap (λ p. p.0 ∷ tokens_from fuel d p.1) f
        ∙ ap (λ w. (c ∷ t) ∷ w) (ih r (omega (arith, k, skip-length d s, ap (length {0}) e)))
        ∙ sym g
        ∙ sym (ap (runs d) e)
        ∙ runs-skip d s

-- The tokens of a text are its maximal runs of characters that are no delimiters, in order.
pub tokens-eq-runs : (d : ℕ → Bool) (s : Text) → tokens d s ≡ runs d s
unfolding tokens
tokens-eq-runs d s = tokens_from-eq-runs (suc (length s)) d s (omega arith)

-- A run of at least one character with a delimiter behind it takes two places.
pub length-runs_from :
    (d : ℕ → Bool) (run s : Text)
    → 2 * length (runs_from d run s) ≤ length s + (if is_empty run then 1 else 2)
unfolding runs_from
length-runs_from d [] [] = omega arith
length-runs_from d (a ∷ run) [] = omega arith
length-runs_from d [] (c ∷ s) =
    ground (arith, length-runs_from d [] s, length-runs_from d (c ∷ []) s)
length-runs_from d (a ∷ run) (c ∷ s) =
    ground (arith, length-runs_from d [] s, length-runs_from d ((a ∷ run) ++ (c ∷ [])) s)

-- Every text of the list has at most `n` characters.
abbrev pub AllShort : ℕ → List Text → Type 0
AllShort n [] = Unit {0}
AllShort n (t ∷ ts) = (length t ≤ n) × AllShort n ts

pub AllShort-mono : (m n : ℕ) (ts : List Text) → m ≤ n → AllShort m ts → AllShort n ts
AllShort-mono m n [] h a = tt
AllShort-mono m n (t ∷ ts) h a = (omega (arith, a.0), AllShort-mono m n ts h a.1)

AllShort-close :
    (n : ℕ) (run : Text) (ws : List Text)
    → length run ≤ n
    → AllShort n ws
    → AllShort n (close run ws)
AllShort-close n [] ws h a = a
AllShort-close n (c ∷ t) ws h a = (h, a)

length-snoc : (run : Text) (c : ℕ) → length (run ++ (c ∷ [])) ≡ length run + 1
length-snoc [] c = refl
length-snoc (a ∷ run) c = omega (arith, length-snoc run c)

pub AllShort-runs_from :
    (d : ℕ → Bool) (run s : Text) → AllShort (length run + length s) (runs_from d run s)
unfolding runs_from
AllShort-runs_from d run [] = AllShort-close (length run + 0) run [] (omega arith) tt
AllShort-runs_from d run (c ∷ s) = elim (Bool-cases (d c)) [
  | inl e ↦ rw e (
      AllShort-close (length run + length (c ∷ s)) run (runs d s) (omega arith) (
        AllShort-mono (0 + length s) (length run + length (c ∷ s)) (runs d s) (omega arith)
          (AllShort-runs_from d [] s)))
  | inr e ↦ rw e (
      AllShort-mono (length (run ++ (c ∷ [])) + length s) (length run + length (c ∷ s)) _
        (omega (arith, length-snoc run c)) (AllShort-runs_from d (run ++ (c ∷ [])) s))
]

-- No character of the text is a delimiter.
abbrev pub Plain : (ℕ → Bool) → Text → Type 0
Plain d [] = Unit {0}
Plain d (c ∷ s) = (d c ≡ false) × Plain d s

pub runs_from-Plain :
    (d : ℕ → Bool) (run t : Text) (c : ℕ) (s : Text)
    → Plain d t
    → d c ≡ true
    → runs_from d run (t ++ (c ∷ s)) ≡ close (run ++ t) (runs d s)
unfolding runs_from
runs_from-Plain d run [] c s p e = rw (e, append-nil)
runs_from-Plain d run (a ∷ t) c s p e =
    rw p.0 (runs_from-Plain d (run ++ (a ∷ [])) t c s p.1 e ∙ rw append_assoc)

pub runs_from-Plain_end :
    (d : ℕ → Bool) (run t : Text) → Plain d t → runs_from d run t ≡ close (run ++ t) []
unfolding runs_from
runs_from-Plain_end d run [] p = rw append-nil
runs_from-Plain_end d run (a ∷ t) p =
    rw p.0 (runs_from-Plain_end d (run ++ (a ∷ [])) t p.1 ∙ rw append_assoc)
