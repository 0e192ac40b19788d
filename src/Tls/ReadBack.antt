-- ===== src/Tls/ReadBack.antt =====
-- What tls_read of tls.c gives after tls_write, to the thread that wrote and to the others.
use ec.Base.{ℕ, ◌+◌, ◌/◌, ◌^◌, ◌≤◌, ◌<◌, ◌≡◌, ◌≢◌, ◌∙◌, ap, inl, true, arith}
use ec.Base.Int.{pos}
use ec.Tls.State.{Tls, returns}
use ec.Tls.Storage.{tls_write, tls_read}
use ec.Tls.Isolation.{byte_of, IsShared}
use ec.Tls.Write.{Wrote}
use ec.Tls.Access.{Has, find-keeps, tls_write-Wrote, tls_read-gives}

Has-Wrote :
    (s s' : Tls) (n t count index tid u size : ℕ) (buffer : ℕ → ℕ)
    → Wrote s s' n t count index buffer
    → Has s tid u size
    → Has s' tid u size
Has-Wrote s s' n t count index tid u size buffer w h = record {
  item = h.item;
  found = find-keeps tid h.item s s' w.same_table h.found;
  its = ap (λ z. (z h.item).tls) w.same_table.items ∙ h.its;
  is_live = ap (λ z. z u) w.live ∙ h.is_live;
  has_size = w.sizes u ∙ h.has_size;
  slots = λ a l. omega (arith, h.slots a l, w.page_num u, ap (λ z. a / z) w.page_size);
}

-- On storages whose live pages have mappings of their own and count the storages that share them,
-- each in the same slot: after a thread has written inside its storage, with the host giving
-- every mapping, another thread reads inside a storage of its own, which may share every page
-- with the writer's, what it held before the write. Both calls return 0; the bytes
-- have offsets below 2 ^ 31, where the int `index` of the loops is not negative, and the sizes fit unsigned int.
pub tls_read-tls_write_other :
    (tid t size offset length other u other_size o l : ℕ) (buffer buf : ℕ → ℕ) (s : Tls)
    → IsShared s
    → Has s tid t size
    → offset + length ≤ size
    → size < 2 ^ 32
    → offset + length < 2 ^ 31
    → ((q : ℕ) → s.maps q ≡ true)
    → Has s other u other_size
    → u ≢ t
    → o + l ≤ other_size
    → other_size < 2 ^ 32
    → o + l < 2 ^ 31
    → (s' : Tls) × (out : ℕ → ℕ) × (s2 : Tls) × (tls_write tid offset length buffer s
        ≡ returns (pos 0) s')
      × (tls_read other o l buf s' ≡ returns (pos 0, out) s2)
      × ((j : ℕ) → j < l → out j ≡ byte_of s u (o + j))
tls_read-tls_write_other tid t size offset length other u other_size o l buffer buf s v h k z b' m g
      ne k' z' low =
    let (s', e, w) = tls_write-Wrote tid t size offset length buffer s v h k z b' m in
    let g' : Has s' other u other_size =
      Has-Wrote s s' length t 0 offset other u other_size buffer w g in
    let (out, s2, f, b) = tls_read-gives other u other_size o l buf s' w.valid g' k' z' low in
    (
      s',
      out,
      s2,
      e,
      f,
      λ j lt. b j lt ∙ w.others u (o + j) (g.is_live, g.slots (o + j) (omega arith)) (inl ne),
    )

-- On storages whose live pages have mappings of their own and count the storages that share them,
-- each in the same slot: a thread that writes inside its storage, to an end below 2 ^ 31 and with
-- the host giving every mapping, reads there what it has written. Both calls return 0.
pub tls_read-tls_write :
    (tid t size offset length : ℕ) (buffer buf : ℕ → ℕ) (s : Tls)
    → IsShared s
    → Has s tid t size
    → offset + length ≤ size
    → size < 2 ^ 32
    → offset + length < 2 ^ 31
    → ((q : ℕ) → s.maps q ≡ true)
    → (s' : Tls) × (out : ℕ → ℕ) × (s2 : Tls) × (tls_write tid offset length buffer s
        ≡ returns (pos 0) s')
      × (tls_read tid offset length buf s' ≡ returns (pos 0, out) s2)
      × ((j : ℕ) → j < length → out j ≡ buffer j)
tls_read-tls_write tid t size offset length buffer buf s v h k z b' m =
    let (s', e, w) = tls_write-Wrote tid t size offset length buffer s v h k z b' m in
    let h' : Has s' tid t size = Has-Wrote s s' length t 0 offset tid t size buffer w h in
    let (out, s2, f, b) = tls_read-gives tid t size offset length buf s' w.valid h' k z b' in
    (
      s',
      out,
      s2,
      e,
      f,
      λ j lt.
          b j lt ∙ w.new_bytes (offset + j) (omega arith) (omega arith) ∙ ap buffer (omega arith),
    )
