-- ===== src/Log/Files.antt =====
-- The files that src/Log.cpp writes to on one day, with the split at 800000 lines of
-- src/webserver/WebServer.cpp.
use linux_cpp_web_server.Common.{
  ℕ, suc, ◌/◌, ◌%◌, ◌≡◌, refl, ap, sym, ◌∙◌, Bool, true, false, Option, none, some, List, [], ◌∷◌,
  ◌++◌, ◌==◌, if◌then◌else◌, ltb, leb, inl, inr, Bool-cases, arith, ==_refl, append_assoc,
  append-nil,
}
use linux_cpp_web_server.Common.Bytes.{Bytes, codes, to_string}
use linux_cpp_web_server.Log.{
  Log, Date, date_prefix, make_log_fullname, open_log, change_file, switch_log, put_line,
  count_flush, write_single_log, write_all,
}

abbrev pub lines_per_file : ℕ
lines_per_file = 800000

-- The file with the number `i` of a day.
unfoldable pub file_of : Bytes → Bytes → Date → ℕ → Bytes
file_of dir base d i =
    if i == 0
    then dir ++ date_prefix d ++ base
    else dir ++ date_prefix d ++ base ++ codes "." ++ to_string i

-- A file that can be opened, or else stderr.
unfoldable pub place : (Bytes → Bool) → Bytes → Option Bytes
place can_open f = if can_open f then some f else none

-- The line with the number `k` of a day belongs in the file `k / 800000`.
unfoldable pub numbered :
    (Bytes → Bool) → Bytes → Bytes → Date → ℕ → List Bytes → List (Option Bytes × Bytes)
numbered can_open dir base d k [] = []
numbered can_open dir base d k (m ∷ ms) =
    (place can_open (file_of dir base d (suc k / lines_per_file)), m)
    ∷ numbered can_open dir base d (suc k) ms

abbrev pub on_day : Date → List Bytes → List (Date × Bytes)
on_day d [] = []
on_day d (m ∷ ms) = (d, m) ∷ on_day d ms

-- The log has written `k` lines on the day `d`, the last to its file.
pub record Current (can_open : Bytes → Bool) (dir base : Bytes) (d : Date) (k : ℕ) (l : Log)
    : Type 0 where
  pub same_dir : l.dir_name ≡ dir
  pub same_name : l.log_name ≡ base
  pub split : l.split_lines ≡ lines_per_file
  pub same_day : l.today ≡ d.day
  pub counted : l.count ≡ k
  pub in_file : l.file ≡ place can_open (file_of dir base d (k / lines_per_file))

-- The name when the number of lines is a multiple.
name_at :
    (dir base : Bytes) (d : Date) (k : ℕ)
    → (suc k % lines_per_file == 0) ≡ true
    → make_log_fullname dir base d (suc k) lines_per_file false
      ≡ file_of dir base d (suc k / lines_per_file)
unfolding make_log_fullname file_of
name_at dir base d k e =
    let some_file : (suc k / lines_per_file == 0) ≡ false = ground arith in
    let counted : ltb 0 (suc k) ≡ true = ground arith in
    rw (make_log_fullname, file_of, e, some_file, counted) refl

module _ (can_open : Bytes → Bool) (dir base : Bytes) (d : Date) where
  -- What `switch_log` leaves for the next line.
  switch_log-in_file :
      (k : ℕ) (l : Log)
      → Current can_open dir base d k l
      → Current can_open dir base d
          (suc k)
          (switch_log can_open d (record l { count = suc l.count }))
        × ((switch_log can_open d (record l { count = suc l.count })).written ≡ l.written)
  unfolding switch_log change_file open_log file_of place
  switch_log-in_file k l h =
      let day : (l.today == d.day) ≡ true = ap (λ t. t == d.day) h.same_day ∙ ==_refl d.day in
      let splits : ltb 0 l.split_lines ≡ true = ap (ltb 0) h.split in
      elim (Bool-cases (suc k % lines_per_file == 0)) [
        | inl full ↦
            let at_end : (suc l.count % l.split_lines == 0) ≡ true =
              ap (λ c. suc c % l.split_lines == 0) h.counted
              ∙ ap (λ n. suc k % n == 0) h.split
              ∙ full in
            rw (switch_log, day, splits, at_end) (changed full, refl)
        | inr room ↦
            let in_middle : (suc l.count % l.split_lines == 0) ≡ false =
              ap (λ c. suc c % l.split_lines == 0) h.counted
              ∙ ap (λ n. suc k % n == 0) h.split
              ∙ room in
            rw (switch_log, day, splits, in_middle) (stays room, refl)
      ]
    where
      name_here :
          (suc k % lines_per_file == 0) ≡ true
          → make_log_fullname l.dir_name l.log_name d (suc l.count) l.split_lines false
            ≡ file_of dir base d (suc k / lines_per_file)
      name_here full =
          ap (λ x. make_log_fullname x l.log_name d (suc l.count) l.split_lines false) h.same_dir
          ∙ ap (λ x. make_log_fullname dir x d (suc l.count) l.split_lines false) h.same_name
          ∙ ap (λ x. make_log_fullname dir base d (suc x) l.split_lines false) h.counted
          ∙ ap (λ x. make_log_fullname dir base d (suc k) x false) h.split
          ∙ name_at dir base d k full

      changed :
          (suc k % lines_per_file == 0) ≡ true
          → Current can_open dir base d
              (suc k)
              (change_file can_open d false (record l { count = suc l.count }))
      changed full = record {
        same_dir = h.same_dir;
        same_name = h.same_name;
        split = h.split;
        same_day = h.same_day;
        counted = ap suc h.counted;
        in_file = ap (place can_open) (name_here full);
      }

      stays :
          (suc k % lines_per_file == 0) ≡ false
          → Current can_open dir base d (suc k) (record l { count = suc l.count })
      stays room = record {
        same_dir = h.same_dir;
        same_name = h.same_name;
        split = h.split;
        same_day = h.same_day;
        counted = ap suc h.counted;
        in_file =
            h.in_file
            ∙ (let same : k / lines_per_file ≡ suc k / lines_per_file = ground arith in
                ap (λ i. place can_open (file_of dir base d i)) same);
      }

  -- A line goes to the file of its number.
  pub write_single_log-Current :
      (k : ℕ) (m : Bytes) (l : Log)
      → Current can_open dir base d k l
      → Current can_open dir base d (suc k) (write_single_log can_open d m l)
        × ((write_single_log can_open d m l).written
            ≡ l.written ++ (place can_open (file_of dir base d (suc k / lines_per_file)), m) ∷ [])
  unfolding write_single_log put_line count_flush
  write_single_log-Current k m l h =
      let (c, w) = switch_log-in_file k l h in
      let put = put_line m (switch_log can_open d (record l { count = suc l.count })) in
      elim (Bool-cases (leb put.flush_interval (suc put.unflushed))) [
        | inl e ↦ rw (write_single_log, count_flush, e) (rest c, wrote c w)
        | inr e ↦ rw (write_single_log, count_flush, e) (rest c, wrote c w)
      ]
    where
      next : Log
      next = switch_log can_open d (record l { count = suc l.count })

      rest :
          {u f : ℕ}
          → Current can_open dir base d (suc k) next
          → Current can_open dir base d (suc k) (record next {
            written = next.written ++ (next.file, m) ∷ [];
            unflushed = u;
            flushes = f;
          })
      rest c = record {
        same_dir = c.same_dir;
        same_name = c.same_name;
        split = c.split;
        same_day = c.same_day;
        counted = c.counted;
        in_file = c.in_file;
      }

      wrote :
          Current can_open dir base d (suc k) next
          → next.written ≡ l.written
          → next.written ++ (next.file, m) ∷ []
            ≡ l.written ++ (place can_open (file_of dir base d (suc k / lines_per_file)), m) ∷ []
      wrote c w =
          ap (λ x. x ++ (next.file, m) ∷ []) w ∙ ap (λ x. l.written ++ (x, m) ∷ []) c.in_file

  pub write_all-numbered :
      (k : ℕ) (ms : List Bytes) (l : Log)
      → Current can_open dir base d k l
      → (write_all can_open (on_day d ms) l).written
        ≡ l.written ++ numbered can_open dir base d k ms
  unfolding write_all numbered
  write_all-numbered k [] l h = sym (append-nil l.written)
  write_all-numbered k (m ∷ ms) l h =
      let (c, w) = write_single_log-Current k m l h in
      write_all-numbered (suc k) ms (write_single_log can_open d m l) c
      ∙ ap (λ x. x ++ numbered can_open dir base d (suc k) ms) w
      ∙ append_assoc l.written
          ((place can_open (file_of dir base d (suc k / lines_per_file)), m) ∷ [])
          (numbered can_open dir base d (suc k) ms)
