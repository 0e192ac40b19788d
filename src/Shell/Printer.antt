-- ===== src/Shell/Printer.antt =====
-- Command lines without redirections, as a user writes them: words with blanks between them, commands with
-- pipes between them, and an ampersand for the background. They describe independently what the parser of
-- myshell_parser.c should read.
use mathlib.Core.List.{append_assoc, append-nil}
use ec.Base.{
  ℕ, ◌≤◌, ◌≡◌, refl, sym, ◌∙◌, ap, inl, inr, Bool, true, false, ◌||◌, List, [], ◌∷◌, ◌++◌, ◌==◌,
  Bool-cases, ==→≡, arith,
}
use ec.Base.Blocks.{length}
use ec.Shell.Text.{Text, is_white, is_special, is_pipe, find_chars}
use ec.Shell.Tokens.{Plain, runs, runs_from, runs_from-Plain, runs_from-Plain_end, close}

-- A word: it has a character, and no blank and no special one.
abbrev pub Wordy : Text → Type 0
Wordy [] = Unit {0}
Wordy (c ∷ s) = (is_white c ≡ false) × (is_special c ≡ false) × Wordy s

abbrev pub IsWord : Text → Type 0
IsWord [] = ⊥
IsWord (c ∷ s) = Wordy (c ∷ s)

abbrev pub AllWords : List Text → Type 0
AllWords [] = Unit {0}
AllWords (w ∷ ws) = IsWord w × AllWords ws

-- The words of a command: at least one, and at most as many as `command_args` has room for.
abbrev pub IsCommand : List Text → Type 0
IsCommand [] = ⊥
IsCommand (w ∷ ws) = AllWords (w ∷ ws) × (length (w ∷ ws) ≤ 256)

abbrev pub AllCommands : List (List Text) → Type 0
AllCommands [] = Unit {0}
AllCommands (c ∷ cs) = IsCommand c × AllCommands cs

unfoldable pub text_of : List Text → Text
text_of [] = []
text_of (w ∷ ws) = w ++ (b' ' ∷ text_of ws)

-- The end of a line.
abbrev pub line_end : Bool → Text
line_end true = b'&' ∷ b'\n' ∷ []
line_end false = b'\n' ∷ []

-- A line of a command and those behind it.
unfoldable pub line_of : List Text → List (List Text) → Bool → Text
line_of c [] b = text_of c ++ line_end b
line_of c (d ∷ ds) b = text_of c ++ (b'|' ∷ line_of d ds b)

-- The texts between the pipes.
unfoldable pub parts_of : List Text → List (List Text) → Bool → List Text
parts_of c [] b = (text_of c ++ line_end b) ∷ []
parts_of c (d ∷ ds) b = text_of c ∷ parts_of d ds b

pub Plain-append : (d : ℕ → Bool) (s t : Text) → Plain d s → Plain d t → Plain d (s ++ t)
Plain-append d [] t p q = q
Plain-append d (c ∷ s) t p q = (p.0, Plain-append d s t p.1 q)

pub white-Wordy : (w : Text) → Wordy w → Plain is_white w
white-Wordy [] h = tt
white-Wordy (c ∷ s) h = (h.0, white-Wordy s h.2)

pub special-Wordy : (w : Text) → Wordy w → Plain is_special w
special-Wordy [] h = tt
special-Wordy (c ∷ s) h = (h.1, special-Wordy s h.2)

pub not_same : (c a : ℕ) → is_special a ≡ true → is_special c ≡ false → (c == a) ≡ false
not_same c a e h = elim (Bool-cases (c == a)) [
  | inl f ↦ cc (h, ap is_special (==→≡ c a f), e)
  | inr f ↦ f
]

-- No word has the special character.
pub one-Wordy : (w : Text) (a : ℕ) → is_special a ≡ true → Wordy w → Plain (λ c. c == a) w
one-Wordy [] a e h = tt
one-Wordy (c ∷ s) a e h = (not_same c a e h.1, one-Wordy s a e h.2)

pub Wordy-of_IsWord : (w : Text) → IsWord w → Wordy w
Wordy-of_IsWord [] h = absurd h
Wordy-of_IsWord (c ∷ s) h = h

pub one-text_of :
    (ws : List Text) (a : ℕ) → is_special a ≡ true → AllWords ws → Plain (λ c. c == a) (text_of ws)
unfolding text_of
one-text_of [] a e h = tt
one-text_of (w ∷ ws) a e h =
    Plain-append (λ c. c == a) w (b' ' ∷ text_of ws) (one-Wordy w a e (Wordy-of_IsWord w h.0))
      (not_same b' ' a e refl, one-text_of ws a e h.1)

find_chars-Plain : (s : Text) (a : ℕ) → Plain (λ c. c == a) s → find_chars s a ≡ false
unfolding find_chars
find_chars-Plain [] a p = refl
find_chars-Plain (c ∷ s) a p = rw p.0 (find_chars-Plain s a p.1)

pub find_chars-append :
    (s t : Text) (a : ℕ) → find_chars (s ++ t) a ≡ find_chars s a || find_chars t a
unfolding find_chars
find_chars-append [] t a = refl
find_chars-append (c ∷ s) t a = ground (arith, find_chars-append s t a)

pub find_chars-text_of :
    (ws : List Text) (t : Text) (a : ℕ)
    → is_special a ≡ true
    → AllWords ws
    → find_chars (text_of ws ++ t) a ≡ find_chars t a
find_chars-text_of ws t a e h =
    find_chars-append (text_of ws) t a ∙ rw (find_chars-Plain (text_of ws) a (one-text_of ws a e h))

pub words_of : (c : List Text) → IsCommand c → AllWords c
words_of [] h = absurd h
words_of (w ∷ ws) h = h.0

-- The line has an ampersand exactly if it ends with one.
pub find_chars-line_of :
    (c : List Text) (cs : List (List Text)) (b : Bool)
    → AllCommands (c ∷ cs)
    → find_chars (line_of c cs b) b'&' ≡ b
unfolding line_of find_chars
find_chars-line_of c [] b h = find_chars-text_of c (line_end b) b'&' refl (words_of c h.0) ∙ ends b
  where
    ends : (b : Bool) → find_chars (line_end b) b'&' ≡ b
    ends true = refl
    ends false = refl
find_chars-line_of c (d ∷ ds) b h =
    find_chars-text_of c (b'|' ∷ line_of d ds b) b'&' refl (words_of c h.0)
    ∙ find_chars-line_of d ds b h.1

pub starts : (c : List Text) → IsCommand c → (a : ℕ) × (s : Text) × (text_of c ≡ a ∷ s)
unfolding text_of
starts [] h = absurd h
starts ([] ∷ ws) h = absurd h.0.0
starts ((a ∷ s) ∷ ws) h = (a, s ++ (b' ' ∷ text_of ws), refl)

close-text_of :
    (c : List Text) (t : Text) (ws : List Text)
    → IsCommand c
    → close (text_of c ++ t) ws ≡ (text_of c ++ t) ∷ ws
close-text_of c t ws h =
    let (a, s, e) = starts c h in ap (λ z. close (z ++ t) ws) e ∙ sym (ap (λ z. (z ++ t) ∷ ws) e)

-- The texts between the pipes of a line are those of its commands.
pub runs-line_of :
    (c : List Text) (cs : List (List Text)) (b : Bool)
    → AllCommands (c ∷ cs)
    → runs is_pipe (line_of c cs b) ≡ parts_of c cs b
unfolding line_of parts_of
runs-line_of c [] b h =
    runs_from-Plain_end is_pipe [] (text_of c ++ line_end b) (
      Plain-append is_pipe (text_of c) (line_end b) (one-text_of c b'|' refl (words_of c h.0))
        (ends b))
    ∙ close-text_of c (line_end b) [] h.0
  where
    ends : (b : Bool) → Plain is_pipe (line_end b)
    ends true = (refl, (refl, tt))
    ends false = (refl, tt)
runs-line_of c (d ∷ ds) b h =
    runs_from-Plain is_pipe [] (text_of c) b'|' (line_of d ds b)
      (one-text_of c b'|' refl (words_of c h.0)) refl
    ∙ sym (ap (λ z. close z (runs is_pipe (line_of d ds b))) (append-nil (text_of c)))
    ∙ close-text_of c [] (runs is_pipe (line_of d ds b)) h.0
    ∙ ap (λ z. z ∷ runs is_pipe (line_of d ds b)) (append-nil (text_of c))
    ∙ ap (λ z. text_of c ∷ z) (runs-line_of d ds b h.1)

-- The words of a command's text, and the token behind them.
abbrev pub end_tokens : Bool → List Text
end_tokens true = (b'&' ∷ []) ∷ []
end_tokens false = []

close-Word : (w : Text) (ws : List Text) → IsWord w → close w ws ≡ w ∷ ws
close-Word [] ws h = absurd h
close-Word (c ∷ s) ws h = refl

pub runs-text_of :
    (ws : List Text) (t : Text)
    → AllWords ws
    → runs is_white (text_of ws ++ t) ≡ ws ++ runs is_white t
unfolding text_of
runs-text_of [] t h = refl
runs-text_of (w ∷ ws) t h =
    ap (runs is_white) (append_assoc w (b' ' ∷ text_of ws) t)
    ∙ runs_from-Plain is_white [] w b' ' (text_of ws ++ t) (white-Wordy w (Wordy-of_IsWord w h.0))
        refl
    ∙ close-Word w (runs is_white (text_of ws ++ t)) h.0
    ∙ ap (λ z. w ∷ z) (runs-text_of ws t h.1)

pub runs-line_end : (b : Bool) → runs is_white (line_end b) ≡ end_tokens b
unfolding runs_from
runs-line_end true = refl
runs-line_end false = refl

pub runs-Word : (w : Text) → IsWord w → runs is_special w ≡ w ∷ []
runs-Word w h =
    runs_from-Plain_end is_special [] w (special-Wordy w (Wordy-of_IsWord w h)) ∙ close-Word w [] h
