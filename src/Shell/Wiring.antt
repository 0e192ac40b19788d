-- ===== src/Shell/Wiring.antt =====
-- The descriptors of a pipeline in the foreground without redirections: execCommand of myshell.c.
use ec.Base.{
  ℕ, zero, suc, ◌+◌, ◌≡◌, ◌≢◌, ◌⊎◌, refl, sym, ◌∙◌, subst, inl, inr, Bool, true, false, ◌&&◌, ◌||◌,
  not, none, some, List, [], ◌∷◌, ◌==◌, if◌then◌else◌, Bool-cases, ==→≡, ==→≢, arith,
}
use ec.Shell.Parser.{Command}
use ec.Shell.Exec.{
  at, set, Target, read_end, write_end, Table, Host, Event, started, waited, connect, execute,
  child, pipe, close_ends,
}

-- A command without redirections.
abbrev pub NoRedirects : Command → Type 0
NoRedirects c = (c.redirect_in_path ≡ none) × (c.redirect_out_path ≡ none)

abbrev pub AllNoRedirects : List Command → Type 0
AllNoRedirects [] = Unit {0}
AllNoRedirects (c ∷ cs) = NoRedirects c × AllNoRedirects cs

-- A child for the command that reads from `x` and writes to `y`.
abbrev pub IsChild : Host → Command → Target → Target → Event → Type 0
IsChild h c x y e =
    (t : Table) × (e ≡ started (execute h c t)) × (at t 0 ≡ some x) × (at t 1 ≡ some y)

-- The commands are run one after the other: the first one reads from `x`, each other one from the pipe of
-- the one before it, the last one writes to `y`, and the shell waits before it starts the next one. The
-- pipe of the first one has the number `n`.
abbrev pub Runs : Host → Target → Target → ℕ → Command → List Command → List Event → Type 0
Runs h x y n c [] es = (e : Event) × IsChild h c x y e × (es ≡ e ∷ waited ∷ [])
Runs h x y n c (d ∷ ds) es =
    (e : Event) × (rest : List Event) × IsChild h c x (write_end n) e
    × Runs h (read_end n) y (n + 1) d ds rest
    × (es ≡ e ∷ waited ∷ rest)

-- The descriptors `t` are those of the shell but for `input`, which is open for `x`: descriptor 0, or one
-- that the shell does not use otherwise.
pub record Feeds (base t : Table) (input : ℕ) (x : Target) : Type 0 where
  pub same : (k : ℕ) → k ≢ input → at t k ≡ at base k
  pub fed : at t input ≡ some x
  pub spare : ((input ≡ 0) × (at base 0 ≡ some x)) ⊎ ((input ≢ 0) × (at base input ≡ none))

-- What the descriptors of a new pipe are.
pub record Piped (t : Table) (r w : ℕ) : Type 0 where
  pub free_r : at t r ≡ none
  pub free_w : at t w ≡ none
  pub apart : w ≢ r

pub open_ne : (t : Table) (k n : ℕ) (x : Target) → at t k ≡ some x → at t n ≡ none → n ≢ k
open_ne t k n x e f g = cc

pub pipe-Piped : (h : Host) (n : ℕ) (t : Table) → Piped t (pipe h n t).0 (pipe h n t).1
unfolding pipe
pipe-Piped h n t =
    let r = h.unused t in
    let t1 = set t r (some (read_end n)) in
    let w = h.unused t1 in
    let e : at t1 w ≡ none = h.unused_lem t1 in
    let d : w ≢ r = open_ne t1 r w (read_end n) (ground arith) e in
    record { free_r = h.unused_lem t; free_w = ground arith; apart = d }

abbrev pub piped : Table → ℕ → ℕ → ℕ → Table
piped t r w n = set (set t r (some (read_end n))) w (some (write_end n))

pub pipe-eq-piped :
    (h : Host) (n : ℕ) (t : Table) → (pipe h n t).2 ≡ piped t (pipe h n t).0 (pipe h n t).1 n
unfolding pipe
pipe-eq-piped h n t = refl

-- A new pipe leaves what is open as it is.
pub piped-old :
    (t : Table) (r w n k : ℕ) (x : Target)
    → Piped t r w
    → at t k ≡ some x
    → at (piped t r w n) k ≡ some x
piped-old t r w n k x p e =
    let a : r ≢ k = open_ne t k r x e p.free_r in
    let b : w ≢ k = open_ne t k w x e p.free_w in ground arith

-- The first commands and those in the middle.
pub connect-inner :
    (c : Command) (w input : ℕ) (t : Table) (x y : Target)
    → at t input ≡ some x
    → at t w ≡ some y
    → w ≢ 0
    → (at (connect c w input (input == 0) false t) 0 ≡ some x)
      × (at (connect c w input (input == 0) false t) 1 ≡ some y)
unfolding connect
connect-inner c w zero t x y e f d = (rw f e, rw f)
connect-inner c w (suc input) t x y e f d =
    let g : at (set t 0 (some x)) w ≡ some y = ground (arith, f) in
    let i : (suc input == 0) ≡ false = ground arith in (rw (i, e, g), rw (i, e, g))

pub connect-last :
    (c : Command) (w input : ℕ) (first : Bool) (t : Table) (x y : Target)
    → NoRedirects c
    → at t input ≡ some x
    → at t 1 ≡ some y
    → (at (connect c w input first true t) 0 ≡ some x)
      × (at (connect c w input first true t) 1 ≡ some y)
unfolding connect
connect-last c w input true t x y n e f = (rw (n.0, n.1, e), rw (n.0, n.1, e) f)
connect-last c w input false t x y n e f = (rw (n.0, n.1, e), rw (n.0, n.1, e) f)

pub child_lem :
    (h : Host) (c : Command) (input : ℕ) (first last : Bool) (w : ℕ) (t : Table)
    → NoRedirects c
    → child h c input first last false w t ≡ execute h c (connect c w input first last t)
unfolding child
child_lem h c input first last w t n = rw (n.1, n.0)

-- A descriptor that is new is not the input, and the shell does not use it.
pub new_lem :
    (base t : Table) (input : ℕ) (x : Target) (n : ℕ)
    → Feeds base t input x
    → at t n ≡ none
    → (n ≢ input) × (at base n ≡ none)
new_lem base t input x n f e =
    let d : n ≢ input = open_ne t input n x f.fed e in (d, sym (f.same n d) ∙ e)

-- An output of the shell stays open.
pub keeps_open :
    (base t : Table) (input : ℕ) (x : Target) (k : ℕ) (y : Target)
    → Feeds base t input x
    → at base k ≡ some y
    → (z : Target) × (at t k ≡ some z)
keeps_open base t input x k y f e = elim (Bool-cases (k == input)) [
  | inl g ↦ (x, subst (λ i. at t i ≡ some x) (sym (==→≡ k input g)) f.fed)
  | inr g ↦ (y, f.same k (==→≢ k input g) ∙ e)
]

pub keeps_one :
    (base t : Table) (input : ℕ) (x y : Target)
    → Feeds base t input x
    → at base 1 ≡ some y
    → at t 1 ≡ some y
keeps_one base t input x y f e = elim f.spare [
  | inl (z, g) ↦ f.same 1 (omega (arith, z)) ∙ e
  | inr (z, g) ↦ f.same 1 (λ q. open_ne base 1 input y e g (sym q)) ∙ e
]

-- What the parent has closed afterwards.
pub closed-at :
    (r w input : ℕ) (last : Bool) (t : Table) (k : ℕ)
    → at (close_ends r w input last t) k
      ≡ (if k == w || not (input == 0) && k == input || last && k == r then none else at t k)
unfolding close_ends
closed-at r w input last t k = ground arith

pub close_ends-same :
    (base t : Table) (r w input n : ℕ) (x : Target) (last : Bool) (k : ℕ)
    → Feeds base t input x
    → Piped t r w
    → k ≢ r
    → at (close_ends r w input last (piped t r w n)) k ≡ at base k
close_ends-same base t r w input n x last k f p d =
    closed-at r w input last (piped t r w n) k ∙ elim (Bool-cases (k == input)) [
      | inl g ↦ at_input (==→≡ k input g) f.spare
      | inr g ↦
          let e : at t k ≡ at base k = f.same k (==→≢ k input g) in
          let b : at base w ≡ none = (new_lem base t input x w f p.free_w).1 in ground (arith, e, b)
    ]
  where
    at_input :
        k ≡ input
        → ((input ≡ 0) × (at base 0 ≡ some x)) ⊎ ((input ≢ 0) × (at base input ≡ none))
        → (if k == w || not (input == 0) && k == input || last && k == r
            then none
            else at (piped t r w n) k)
          ≡ at base k
    at_input z (inl (i, b)) =
        let e : at t k ≡ some x = subst (λ j. at t j ≡ some x) (sym z) f.fed in
        let w_ne : k ≢ w = λ q. open_ne t k w x e p.free_w (sym q) in
        let k_base : at base k ≡ some x = subst (λ j. at base j ≡ some x) (sym (z ∙ i)) b in
        let off : (not (input == 0)) ≡ false = ground arith in ground arith
    at_input z (inr (i, b)) =
        let k_base : at base k ≡ none = subst (λ j. at base j ≡ none) (sym z) b in ground arith
