-- ===== src/Http/Connection/Ready.antt =====
-- The counters of a response under way in src/http/HttpConnection.cpp, and what the loop of `handle_write`
-- needs next while they count what remains.
use linux_cpp_web_server.Common.{
  ℕ, zero, suc, ◌+◌, ◌-◌, ◌^◌, ◌<◌, ◌≤◌, ◌≡◌, ◌≢◌, ◌⊎◌, inl, inr, refl, ap, sym, ◌∙◌, true, false,
  none, [], ◌∷◌, ◌++◌, ◌==◌, length, length-drop, drop, drop-drop, arith, Bool-cases, Option-cases,
}
use linux_cpp_web_server.Common.Bytes.{Bytes, is_empty}
use linux_cpp_web_server.Http.Connection.Writing.{
  Sending, Phase, testing, behind_header, nothing, write_bytes, send_file, blocked, out_of_room,
  sub64, file_need, need, file_rest, take_iov, take_file, next_phase,
}

-- What the response still has to send.
abbrev pub remaining : Sending → Bytes
remaining s = s.iov ++ file_rest s

-- The counters count it.
pub record IsReady (s : Sending) : Type 0 where
  pub small : s.bytes_to_send < 2 ^ 64
  pub total : s.bytes_to_send ≡ length s.iov + length (file_rest s)
  pub of_file : (s.file ≡ none) ⊎ (s.file_bytes_to_send ≡ length (file_rest s))

-- Behind the header nothing of the header is left, and there is a file.
abbrev pub Fits : Phase → Sending → Type 0
Fits testing s = Unit
Fits behind_header s = (s.iov ≡ []) × (s.file ≢ none)

length-zero : (xs : Bytes) → length xs ≡ 0 → xs ≡ []
length-zero [] h = refl
length-zero (x ∷ xs) h = absurd (omega arith)

is_empty_sound : (xs : Bytes) → is_empty xs ≡ true → xs ≡ []
unfolding is_empty
is_empty_sound [] h = refl
is_empty_sound (x ∷ xs) h = cc

not_empty : (xs : Bytes) → is_empty xs ≡ false → 0 < length xs
unfolding is_empty
not_empty [] h = cc
not_empty (x ∷ xs) h = omega arith

pub out_of_room-blocked : (xs : Bytes) → 0 < length xs → out_of_room xs ≡ blocked
unfolding out_of_room is_empty
out_of_room-blocked [] h = absurd (omega arith)
out_of_room-blocked (x ∷ xs) h = refl

nothing_left : (s : Sending) → IsReady s → s.bytes_to_send ≡ 0 → remaining s ≡ []
nothing_left s v h =
    let a : s.iov ≡ [] = length-zero s.iov (omega (arith, v.total, h)) in
    let b : file_rest s ≡ [] = length-zero (file_rest s) (omega (arith, v.total, h)) in
    ap (λ i. i ++ file_rest s) a ∙ b

abbrev pub Needs : Phase → Sending → Type 0
Needs phase s =
    ((need phase s ≡ nothing) × (remaining s ≡ []))
    ⊎ (((need phase s ≡ write_bytes) × (0 < length s.iov))
        ⊎ ((need phase s ≡ send_file)
            × (s.iov ≡ [])
            × (s.file_bytes_to_send ≡ length (file_rest s))
            × (0 < length (file_rest s))))

file_need-cases :
    (s : Sending)
    → IsReady s
    → s.iov ≡ []
    → s.file ≢ none
    → ((file_need s ≡ nothing) × (remaining s ≡ []))
      ⊎ ((file_need s ≡ send_file)
          × (s.file_bytes_to_send ≡ length (file_rest s))
          × (0 < length (file_rest s)))
unfolding file_need
file_need-cases s v empty has = elim (Bool-cases (s.file_bytes_to_send == 0)) [
  | inr more ↦ elim (v.of_file) [
    | inl no_file ↦ absurd (has no_file)
    | inr counts ↦
        let some_left : s.file_bytes_to_send ≢ 0 = ground arith in
        inr (rw (file_need, more) refl, counts, omega (arith, counts, some_left))
  ]
  | inl sent ↦ elim (v.of_file) [
    | inl no_file ↦ absurd (has no_file)
    | inr counts ↦
        let zero_file : s.file_bytes_to_send ≡ 0 = ground arith in
        let zero_all : s.bytes_to_send ≡ 0 =
          omega (arith, v.total, counts, zero_file, ap length empty) in
        let test : (s.bytes_to_send == 0) ≡ true = ground arith in
        inl (rw (file_need, sent, test) refl, nothing_left s v zero_all)
  ]
]

pub need-cases : (phase : Phase) (s : Sending) → IsReady s → Fits phase s → Needs phase s
unfolding need file_rest
need-cases behind_header s v (empty, has) = elim (file_need-cases s v empty has) [
  | inl r ↦ inl r
  | inr (r, counts, some_left) ↦ inr (inr (r, empty, counts, some_left))
]
need-cases testing s v fits = elim (Bool-cases (s.bytes_to_send == 0)) [
  | inl over ↦
      let zero_all : s.bytes_to_send ≡ 0 = ground arith in
      inl (rw (need, over) refl, nothing_left s v zero_all)
  | inr more ↦ elim (Option-cases s.file) [
    | inl no_file ↦
        let nothing_behind : file_rest s ≡ [] = rw (file_rest, no_file) refl in
        let some_left : s.bytes_to_send ≢ 0 = ground arith in
        inr (
          inl (
            rw (need, more, no_file) refl,
            omega (arith, v.total, ap length nothing_behind, some_left),
          ))
    | inr (f, has) ↦ elim (Bool-cases (is_empty s.iov)) [
      | inr left ↦ inr (inl (rw (need, more, has, left) refl, not_empty s.iov left))
      | inl empty ↦
          let none_left = is_empty_sound s.iov empty in
          let here : need testing s ≡ file_need s = simp (need, more, has, empty) refl in
          elim (file_need-cases s v none_left (λ e. cc)) [
            | inl r ↦ inl (here ∙ r.0, r.1)
            | inr (r, counts, some_left) ↦ inr (inr (here ∙ r, none_left, counts, some_left))
          ]
    ]
  ]
]

sub64-le : (a b : ℕ) → a < 2 ^ 64 → b ≤ a → sub64 a b ≡ a - b
unfolding sub64
sub64-le a b small le = omega arith

pub take_iov-IsReady : (k : ℕ) (s : Sending) → k ≤ length s.iov → IsReady s → IsReady (take_iov k s)
unfolding take_iov file_rest
take_iov-IsReady k s le v =
    let e = sub64-le s.bytes_to_send k v.small (omega (arith, v.total)) in
    let d = length-drop k s.iov in
    record {
      small = omega (arith, e, v.small);
      total = omega (arith, e, d, v.total);
      of_file = v.of_file;
    }

drop-nil : (m : ℕ) → [] ≡ drop {A = ℕ} m []
drop-nil zero = refl
drop-nil (suc m) = refl

pub file_rest-take_file : (m : ℕ) (s : Sending) → file_rest (take_file m s) ≡ drop m (file_rest s)
unfolding take_file file_rest
file_rest-take_file m s = elim (Option-cases s.file) [
  | inl e ↦ rw (take_file, file_rest, e) (drop-nil m)
  | inr (f, e) ↦ rw (take_file, file_rest, e) (sym (drop-drop s.file_offset m f))
]

pub take_file-IsReady :
    (m : ℕ) (s : Sending)
    → m ≤ length (file_rest s)
    → s.file_bytes_to_send ≡ length (file_rest s)
    → IsReady s
    → IsReady (take_file m s)
unfolding take_file
take_file-IsReady m s le counts v =
    let e = sub64-le s.bytes_to_send m v.small (omega (arith, v.total)) in
    let e' = sub64-le s.file_bytes_to_send m (omega (arith, v.total, v.small)) (omega arith) in
    let d = ap length (file_rest-take_file m s) ∙ length-drop m (file_rest s) in
    record {
      small = omega (arith, e, v.small);
      total = omega (arith, e, d, v.total);
      of_file = inr (omega (arith, e', d, counts));
    }

pub next_phase-Fits : (s : Sending) → Fits (next_phase s) s
unfolding next_phase
next_phase-Fits s = elim (Option-cases s.file) [
  | inl e ↦ let p : next_phase s ≡ testing = simp (next_phase, e) refl in rw p tt
  | inr (f, e) ↦ elim (Bool-cases (is_empty s.iov)) [
    | inl empty ↦
        let p : next_phase s ≡ behind_header = simp (next_phase, e, empty) refl in
        rw p (is_empty_sound s.iov empty, λ h. cc)
    | inr more ↦ let p : next_phase s ≡ testing = simp (next_phase, e, more) refl in rw p tt
  ]
]
