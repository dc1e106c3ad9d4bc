-- ===== src/Http/BufferPool.antt =====
-- include/http/BufferPool.h: buffers that are used again. A `std::vector<char>` is its bytes and its
-- capacity; `reserved` is the capacity that `reserve` gives an empty vector that is too small.
use linux_cpp_web_server.Common.{
  ℕ, ◌≤◌, ◌*◌, ◌≡◌, refl, ap, ◌||◌, List, [], ◌∷◌, if◌then◌else◌, ltb, length, All, arith, inl, inr,
  Bool-cases,
}
use linux_cpp_web_server.Common.Bytes.{Bytes}

pub record Buffer : Type 0 where
  pub bytes : Bytes
  pub capacity : ℕ

pub record BufferPool : Type 0 where
  pub buffers : List Buffer

unfoldable pub no_buffers : BufferPool
no_buffers = record { buffers = [] }

abbrev pub max_pool_size : ℕ
max_pool_size = 2000

abbrev pub min_buffer_size : ℕ
min_buffer_size = 4096

abbrev pub max_buffer_size : ℕ
max_buffer_size = 128 * 1024

unfoldable pub release : Buffer → BufferPool → BufferPool
release buffer p =
    if ltb buffer.capacity min_buffer_size || ltb max_buffer_size buffer.capacity
    then p
    else if ltb (length p.buffers) max_pool_size
    then record { buffers = record buffer { bytes = [] } ∷ p.buffers }
    else p

module _ (reserved : ℕ → ℕ) where
  unfoldable pub cleared : ℕ → Buffer → Buffer
  cleared size buffer =
      if ltb buffer.capacity size
      then record { bytes = []; capacity = reserved size }
      else record buffer { bytes = [] }

  unfoldable pub acquire : ℕ → BufferPool → Buffer × BufferPool
  acquire size p = elim p.buffers [
    | [] ↦ (cleared size (record { bytes = []; capacity = 0 }), p)
    | buffer ∷ rest ↦ (cleared size buffer, record { buffers = rest })
  ]

-- A call of the pool.
pub data Call : Type 0 where
  acquires : ℕ → Call
  releases : Buffer → Call

module _ (reserved : ℕ → ℕ) where
  unfoldable pub after : Call → BufferPool → BufferPool
  after (acquires size) p = (acquire reserved size p).1
  after (releases buffer) p = release buffer p

  unfoldable pub after_all : List Call → BufferPool → BufferPool
  after_all [] p = p
  after_all (c ∷ cs) p = after_all cs (after c p)

-- An empty buffer of a size that the pool keeps.
pub record Kept (b : Buffer) : Type 0 where
  pub empty : b.bytes ≡ []
  pub not_small : min_buffer_size ≤ b.capacity
  pub not_large : b.capacity ≤ max_buffer_size

pub record IsValid (p : BufferPool) : Type 0 where
  pub bounded : length p.buffers ≤ max_pool_size
  pub kept : All Kept p.buffers

release-IsValid : (b : Buffer) (p : BufferPool) → IsValid p → IsValid (release b p)
unfolding release
release-IsValid b p h =
    elim (Bool-cases (ltb b.capacity min_buffer_size || ltb max_buffer_size b.capacity)) [
      | inl refused ↦ rw (release, refused) h
      | inr fits ↦ elim (Bool-cases (ltb (length p.buffers) max_pool_size)) [
        | inr full ↦ rw (release, fits, full) h
        | inl room ↦
            rw (release, fits, room)
              (record {
                bounded = ground arith;
                kept = (
                  record { empty = refl; not_small = ground arith; not_large = ground arith },
                  h.kept,
                );
              })
      ]
    ]

module _ (reserved : ℕ → ℕ) (enough : (n : ℕ) → n ≤ reserved n) where
  -- What a caller gets.
  pub record Fresh (size : ℕ) (b : Buffer) : Type 0 where
    pub empty : b.bytes ≡ []
    pub fits : size ≤ b.capacity

  cleared-Fresh : (size : ℕ) (b : Buffer) → Fresh size (cleared reserved size b)
  unfolding cleared
  cleared-Fresh size b = elim (Bool-cases (ltb b.capacity size)) [
    | inl small ↦ rw (cleared, small) (record { empty = refl; fits = enough size })
    | inr large ↦ rw (cleared, large) (record { empty = refl; fits = ground arith })
  ]

  acquire-IsValid :
      (size : ℕ) (p : BufferPool) (l : List Buffer)
      → p.buffers ≡ l
      → IsValid p
      → IsValid (acquire reserved size p).1 × Fresh size (acquire reserved size p).0
  unfolding acquire
  acquire-IsValid size p [] e h =
      rw (acquire, e) (h, cleared-Fresh size (record { bytes = []; capacity = 0 }))
  acquire-IsValid size p (b ∷ rest) e h =
      let len = ap (λ l. length l) e in
      let bound = h.bounded in
      let kept : All Kept (b ∷ rest) = let k = h.kept in rw e at k in
      rw (acquire, e) (record { bounded = omega arith; kept = kept.1 }, cleared-Fresh size b)

  after_all-IsValid :
      (cs : List Call) (p : BufferPool) → IsValid p → IsValid (after_all reserved cs p)
  unfolding after_all after
  after_all-IsValid [] p h = h
  after_all-IsValid (acquires size ∷ cs) p h =
      after_all-IsValid cs _ ((acquire-IsValid size p p.buffers refl h).0)
  after_all-IsValid (releases b ∷ cs) p h = after_all-IsValid cs _ (release-IsValid b p h)

  -- Where `reserve` gives the capacity that it is asked for, after every row of calls the pool of
  -- buffers holds at most 2000 buffers, each empty and with a capacity from 4096 to 131072, and the
  -- buffer that it hands out next is empty and has room for the size that is asked for.
  pub acquire-after_all :
      (cs : List Call) (size : ℕ)
      → IsValid (after_all reserved cs no_buffers)
        × Fresh size (acquire reserved size (after_all reserved cs no_buffers)).0
  unfolding no_buffers
  acquire-after_all cs size =
      let valid = after_all-IsValid cs no_buffers (record { bounded = omega arith; kept = tt }) in
      (valid, (acquire-IsValid size (after_all reserved cs no_buffers) _ refl valid).1)
