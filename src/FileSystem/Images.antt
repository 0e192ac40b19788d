-- ===== src/FileSystem/Images.antt =====
-- The images of the structures of fs.c hold what was put into them.
use ec.Base.{
  ℕ, zero, suc, ◌+◌, ◌-◌, ◌*◌, ◌%◌, ◌≤◌, ◌<◌, ◌≡◌, ◌∙◌, ap, inl, inr, Bool, true, false, not, [],
  ◌∷◌, ◌==◌, ltb, Bool-cases, arith,
}
use ec.Base.Int.{ℤ, pos, negsuc}
use ec.FileSystem.State.{Name, length, Inode, DirectoryEntry, Bytes}
use ec.FileSystem.Layout.{
  to_word, of_word, word_byte, get_word, shift, put_inode, get_inode, name_byte, get_name,
  put_entry, get_entry,
}

-- The numbers that an int holds.
abbrev pub InInt : ℤ → Type 0
InInt (pos n) = n < 2147483648
InInt (negsuc n) = n < 2147483648

of_word-to_word : (x : ℤ) → InInt x → of_word (to_word x) ≡ x
unfolding of_word to_word
of_word-to_word (pos n) h =
    let e : n % 4294967296 ≡ n = omega arith in
    let l : ltb n 2147483648 ≡ true = ground arith in rw (e, l)
of_word-to_word (negsuc n) h =
    let e : n % 4294967296 ≡ n = omega arith in
    let l : ltb (4294967295 - n) 2147483648 ≡ false = ground arith in
    rw (e, l) (ap (λ z. negsuc z) (omega arith))

to_word-Word : (x : ℤ) → to_word x < 4294967296
unfolding to_word
to_word-Word (pos n) = omega arith
to_word-Word (negsuc n) = omega arith

word-bytes :
    (u : ℕ)
    → u < 4294967296
    → word_byte u 0 + 256 * word_byte u 1 + 65536 * word_byte u 2 + 16777216 * word_byte u 3 ≡ u
unfolding word_byte
word-bytes u h = omega arith

-- Bytes that hold the int at `o`.
abbrev Holds : Bytes → ℕ → ℤ → Type 0
Holds b o x = (k : ℕ) → k < 4 → b (o + k) ≡ word_byte (to_word x) k

get_word-Holds : (b : Bytes) (o : ℕ) (x : ℤ) → Holds b o x → get_word b o ≡ to_word x
unfolding get_word
get_word-Holds b o x h =
    let e : b o ≡ word_byte (to_word x) 0 = ap b (omega arith) ∙ h 0 (omega arith) in
    omega (
      arith,
      e,
      h 1 (omega arith),
      h 2 (omega arith),
      h 3 (omega arith),
      word-bytes (to_word x) (to_word-Word x),
    )

pub get_int-Holds : (b : Bytes) (o : ℕ) (x : ℤ) → InInt x → Holds b o x → of_word (get_word b o) ≡ x
get_int-Holds b o x r h = ap of_word (get_word-Holds b o x h) ∙ of_word-to_word x r

-- What an inode in the table can hold.
abbrev pub IsInode : Inode → Type 0
IsInode e = (e.kind < 256) × InInt e.next_direct_offset

minus_lem : (a k : ℕ) → a + k - a ≡ k
minus_lem a k = omega arith

put_inode-next :
    (e : Inode) (k : ℕ) → put_inode e (4 + k) ≡ word_byte (to_word e.next_direct_offset) k
unfolding put_inode
put_inode-next e k = rw (minus_lem 4 k) (ground arith)

put_entry-used : (e : DirectoryEntry) → not (put_entry e 0 == 0) ≡ e.used
unfolding put_entry
put_entry-used e = elim (Bool-cases e.used) [ inl u ↦ rw u | inr u ↦ rw u ]

put_entry-inode :
    (e : DirectoryEntry) (k : ℕ)
    → k < 4
    → put_entry e (4 + k) ≡ word_byte (to_word e.inode_number) k
unfolding put_entry
put_entry-inode e k l = rw (minus_lem 4 k) (ground arith)

put_entry-name : (e : DirectoryEntry) (k : ℕ) → k < 16 → put_entry e (8 + k) ≡ name_byte e.name k
unfolding put_entry
put_entry-name e k l = rw (minus_lem 8 k) (ground arith)

put_entry-size :
    (e : DirectoryEntry) (k : ℕ) → k < 4 → put_entry e (24 + k) ≡ word_byte (to_word e.size) k
unfolding put_entry
put_entry-size e k l = rw (minus_lem 24 k) (ground arith)

put_entry-count :
    (e : DirectoryEntry) (k : ℕ) → k < 4 → put_entry e (28 + k) ≡ word_byte (to_word e.count) k
unfolding put_entry
put_entry-count e k l = rw (minus_lem 28 k) (ground arith)

pub get_inode-put_inode :
    (b : Bytes) (e : Inode) → IsInode e → ((k : ℕ) → k < 8 → b k ≡ put_inode e k) → get_inode b ≡ e
unfolding get_inode put_inode
get_inode-put_inode b e v h =
    let kind : b 0 ≡ e.kind = h 0 (omega arith) ∙ omega (arith, v.0) in
    let next : of_word (get_word b 4) ≡ e.next_direct_offset =
      get_int-Holds b 4 e.next_direct_offset v.1 (λ k l. h (4 + k) (omega arith) ∙ inner k l) in
    ap (λ z. record { kind = z; next_direct_offset = of_word (get_word b 4) }) kind
    ∙ ap (λ z. record { kind = e.kind; next_direct_offset = z }) next
  where
    inner : (k : ℕ) → k < 4 → put_inode e (4 + k) ≡ word_byte (to_word e.next_direct_offset) k
    inner k l = put_inode-next e k

-- A name that fits into the array: at most 15 characters, none of them 0.
abbrev pub IsName : Name → Type 0
IsName [] = Unit {0}
IsName (c ∷ s) = (0 < c) × (c < 256) × IsName s

get_name-name_byte :
    (n : ℕ) (b : Bytes) (s : Name)
    → IsName s
    → length s < n
    → ((k : ℕ) → k < n → b k ≡ name_byte s k)
    → get_name n b ≡ s
unfolding get_name name_byte
get_name-name_byte zero b s v h g = absurd (omega arith)
get_name-name_byte (suc n) b [] v h g = let z : b 0 ≡ 0 = g 0 (omega arith) in rw z
get_name-name_byte (suc n) b (c ∷ s) v h g =
    let e : b 0 ≡ c = g 0 (omega arith) ∙ omega (arith, v.1) in
    let ne : (c == 0) ≡ false = ground (arith, v.0) in
    rw (e, ne)
      (ap (λ z. c ∷ z)
        (get_name-name_byte n (shift 1 b) s v.2 (omega arith)
          (λ k l. ap b (omega arith) ∙ g (suc k) (omega arith))))

-- What an entry of the directory can hold.
pub record IsEntry (e : DirectoryEntry) : Type 0 where
  pub inode_int : InInt e.inode_number
  pub name_ok : IsName e.name
  pub name_short : length e.name ≤ 15
  pub size_int : InInt e.size
  pub count_int : InInt e.count

abbrev entry : Bool → ℤ → Name → ℤ → ℤ → DirectoryEntry
entry u i n z c = record { used = u; inode_number = i; name = n; size = z; count = c }

entry_eq :
    {u u' : Bool} {i i' z z' c c' : ℤ} {n n' : Name}
    → u ≡ u'
    → i ≡ i'
    → n ≡ n'
    → z ≡ z'
    → c ≡ c'
    → entry u i n z c ≡ entry u' i' n' z' c'
entry_eq a b c d e = cc

pub get_entry-put_entry :
    (b : Bytes) (e : DirectoryEntry)
    → IsEntry e
    → ((k : ℕ) → k < 32 → b k ≡ put_entry e k)
    → get_entry b ≡ e
unfolding get_entry
get_entry-put_entry b e v h =
    let used : not (b 0 == 0) ≡ e.used =
      ap (λ z. not (z == 0)) (h 0 (omega arith)) ∙ put_entry-used e in
    let inode : of_word (get_word b 4) ≡ e.inode_number =
      get_int-Holds b 4 e.inode_number v.inode_int
        (λ k l. h (4 + k) (omega arith) ∙ put_entry-inode e k l) in
    let name : get_name 16 (shift 8 b) ≡ e.name =
      get_name-name_byte 16 (shift 8 b) e.name v.name_ok (omega (arith, v.name_short))
        (λ k l. h (8 + k) (omega arith) ∙ put_entry-name e k l) in
    let size : of_word (get_word b 24) ≡ e.size =
      get_int-Holds b 24 e.size v.size_int
        (λ k l. h (24 + k) (omega arith) ∙ put_entry-size e k l) in
    let count : of_word (get_word b 28) ≡ e.count =
      get_int-Holds b 28 e.count v.count_int
        (λ k l. h (28 + k) (omega arith) ∙ put_entry-count e k l) in
    entry_eq used inode name size count
