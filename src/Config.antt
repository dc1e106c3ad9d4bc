-- ===== src/Config.antt =====
-- src/Config.cpp: the options of the command line. What `getopt` returns is a list of option characters,
-- with the text in `optarg`; `atoi` is the C library's.
use linux_cpp_web_server.Common.{
  ℕ, ◌≡◌, refl, ap, ◌∙◌, true, false, List, [], ◌∷◌, ◌==◌, if◌then◌else◌, inl, inr, Bool-cases,
  ==_iff,
}
use linux_cpp_web_server.Common.Bytes.{Bytes}
use linux_cpp_web_server.Sql.{ℤ, pos}

pub record Config : Type 0 where
  pub port : ℤ
  pub sql_num : ℤ
  pub thread_num : ℤ
  pub close_log : ℤ

unfoldable pub default_config : Config
default_config = record { port = pos 8080; sql_num = pos 8; thread_num = pos 8; close_log = pos 0 }

module _ (atoi : Bytes → ℤ) where
  -- The switch.
  unfoldable pub set_option : ℕ → Bytes → Config → Config
  set_option opt optarg c =
      if opt == b'p'
      then record c { port = atoi optarg }
      else if opt == b's'
      then record c { sql_num = atoi optarg }
      else if opt == b't'
      then record c { thread_num = atoi optarg }
      else if opt == b'c'
      then record c { close_log = atoi optarg }
      else c

  unfoldable pub parse_arg : List (ℕ × Bytes) → Config → Config
  parse_arg [] c = c
  parse_arg ((opt, optarg) ∷ rest) c = parse_arg rest (set_option opt optarg c)

  -- The number of the last option `opt`, or what is there without one.
  unfoldable pub last_option : ℕ → ℤ → List (ℕ × Bytes) → ℤ
  last_option opt before [] = before
  last_option opt before ((o, optarg) ∷ rest) =
      last_option opt (if o == opt then atoi optarg else before) rest

  set_option-each :
      (o : ℕ) (optarg : Bytes) (c : Config)
      → set_option o optarg c ≡ record {
        port = if o == b'p' then atoi optarg else c.port;
        sql_num = if o == b's' then atoi optarg else c.sql_num;
        thread_num = if o == b't' then atoi optarg else c.thread_num;
        close_log = if o == b'c' then atoi optarg else c.close_log;
      }
  unfolding set_option
  set_option-each o optarg c = elim (Bool-cases (o == b'p')) [
    | inl p ↦ rw (p, other b'p' p b's' refl, other b'p' p b't' refl, other b'p' p b'c' refl) refl
    | inr not_p ↦ elim (Bool-cases (o == b's')) [
      | inl s ↦ rw (not_p, s, other b's' s b't' refl, other b's' s b'c' refl) refl
      | inr not_s ↦ elim (Bool-cases (o == b't')) [
        | inl t ↦ rw (not_p, not_s, t, other b't' t b'c' refl) refl
        | inr not_t ↦ elim (Bool-cases (o == b'c')) [
          | inl q ↦ rw (not_p, not_s, not_t, q) refl
          | inr not_c ↦ rw (not_p, not_s, not_t, not_c) refl
        ]
      ]
    ]
  ]
    where
      other : (a : ℕ) → (o == a) ≡ true → (b : ℕ) → (a == b) ≡ false → (o == b) ≡ false
      other a here b apart = ap (λ x. x == b) ((==_iff o a).0 here) ∙ apart

  -- Each number of the configuration is that of the last option for it, or the one that was there.
  pub parse_arg-last_option :
      (opts : List (ℕ × Bytes)) (c : Config)
      → parse_arg opts c ≡ record {
        port = last_option b'p' c.port opts;
        sql_num = last_option b's' c.sql_num opts;
        thread_num = last_option b't' c.thread_num opts;
        close_log = last_option b'c' c.close_log opts;
      }
  unfolding parse_arg last_option
  parse_arg-last_option [] c = refl
  parse_arg-last_option ((o, optarg) ∷ rest) c =
      rw (set_option-each o optarg c) (parse_arg-last_option rest _)
