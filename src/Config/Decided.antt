-- ===== src/Config/Decided.antt =====
-- src/config.rs: what one step of reading the environment does.
use uw_ussh_server.Prelude.{
  ℕ, ◌*◌, ◌%◌, ◌^◌, ◌≤◌, ◌<◌, ◌≡◌, refl, sym, subst, ◌∙◌, Bool, true, false, ◌||◌, List, [], ◌∷◌,
  ◌++◌, map, Option, none, some, inl, inr, arith, nat_beq, ◌==◌, if◌then◌else◌, ◌↔◌,
}
use uw_ussh_server.Prelude.Text.{Text, text, text_eq, trim, to_ascii_lowercase}
use uw_ussh_server.Prelude.Numerals.{parse_u64, parse_u64-le}
use uw_ussh_server.Config.{
  Config, auto, off, Read, or_refuse, number, checked_mega, word, switch, parse_tls,
  parse_registration,
}
use uw_ussh_server.Config.Settings.{
  Step, run_steps, with_var, and_then, set_max_connections, set_per_address,
}
use uw_ussh_server.Config.Reads.{
  IsSetting, Means, registrations, tls_modes, switches, IsNumber, IsMega,
}

-- A step reads a value as it should be read and puts it into the configuration, or refuses one that
-- is none.
abbrev pub Decided :
    {A : Type 0}
    → (Text → A → Type 0)
    → (Config → A → Config)
    → Text
    → Config
    → Read Config
    → Type 0
Decided {A} good put value c (inl message) = (a : A) → ¬ (good value a)
Decided {A} good put value c (inr c') = (a : A) × good value a × (c' ≡ put c a)

pub set-Ends :
    {A : Type 0} (E : Read Config → Type 0) (o : Option Text) (f : Text → Step) (c : Config)
    (rest : List Step) (good : Text → A → Type 0) (otherwise : A) (put : Config → A → Config)
    → put c otherwise ≡ c
    → ((value : Text) → Decided good put value c (f value c))
    → ((message : Text) → ((a : A) → ¬ (IsSetting o good otherwise a)) → E (inl message))
    → ((a : A) → IsSetting o good otherwise a → E (run_steps rest (put c a)))
    → E (run_steps (with_var o f ∷ rest) c)
unfolding run_steps
set-Ends E none f c rest good otherwise put same decided refused next =
    subst (λ x. E (run_steps rest x)) same (next otherwise refl)
set-Ends {A} E (some value) f c rest good otherwise put same decided refused next =
    go (f value c) (decided value)
  where
    go :
        (r : Read Config)
        → Decided good put value c r
        → E (elim r [ inl message ↦ inl message | inr c' ↦ run_steps rest c' ])
    go (inl message) bad = refused message bad
    go (inr c') (a, fine, is_put) = subst (λ x. E (run_steps rest x)) (sym is_put) (next a fine)

-- A value that a function reads or refuses.
pub refuse-Decided :
    {A : Type 0} (good : Text → A → Type 0) (put : Config → A → Config) (value : Text) (c : Config)
    (o : Option A) (message : Text)
    → ((a : A) → o ≡ some a → good value a)
    → (o ≡ none → (a : A) → ¬ (good value a))
    → Decided good put value c (and_then (or_refuse o message) (λ a. inr (put c a)))
refuse-Decided good put value c none message reads refuses = refuses refl
refuse-Decided good put value c (some a) message reads refuses = (a, reads a refl, refl)

-- A value that is read by a function and by nothing else.
pub some-none : {A : Type 0} (o : Option A) → o ≡ none → (a : A) → ¬ (o ≡ some a)
some-none o h a k = cc

abbrev pub find_word : {A : Type 0} → List (Text × A) → Text → Option A
find_word [] w = none
find_word ((spelled, meant) ∷ rest) w = if w == spelled then some meant else find_word rest w

find_word-Means :
    {A : Type 0} (table : List (Text × A)) (value : Text) (a : A)
    → find_word table (map to_ascii_lowercase (trim value)) ≡ some a
    → Means table value a
find_word-Means [] value a h = cc
find_word-Means ((spelled, meant) ∷ rest) value a h =
    go (map to_ascii_lowercase (trim value) == spelled) refl h (find_word-Means rest value a)
  where
    go :
        (c : Bool)
        → (map to_ascii_lowercase (trim value) == spelled) ≡ c
        → (if c then some meant else find_word rest (map to_ascii_lowercase (trim value))) ≡ some a
        → (find_word rest (map to_ascii_lowercase (trim value)) ≡ some a → Means rest value a)
        → Means ((spelled, meant) ∷ rest) value a
    go true e k later =
        inl ((text_eq.same_iff (map to_ascii_lowercase (trim value)) spelled).0 e, cc)
    go false e k later = inr (later k)

find_word-none :
    {A : Type 0} (table : List (Text × A)) (value : Text)
    → find_word table (map to_ascii_lowercase (trim value)) ≡ none
    → (a : A) → ¬ (Means table value a)
find_word-none [] value h a k = k
find_word-none {A = A} ((spelled, meant) ∷ rest) value h a k =
    go (map to_ascii_lowercase (trim value) == spelled) refl h k (find_word-none rest value)
  where
    go :
        (c : Bool)
        → (map to_ascii_lowercase (trim value) == spelled) ≡ c
        → (if c then some meant else find_word rest (map to_ascii_lowercase (trim value))) ≡ none
        → Means ((spelled, meant) ∷ rest) value a
        → (find_word rest (map to_ascii_lowercase (trim value)) ≡ none
            → (b : A) → ¬ (Means rest value b))
        → ⊥
    go true e q m later = cc
    go false e q (inl (same, _)) later =
        cc ((text_eq.same_iff (map to_ascii_lowercase (trim value)) spelled).1 same)
    go false e q (inr m) later = later q a m

pub parse_registration-words :
    (value : Text) → parse_registration value ≡ find_word registrations (word value)
unfolding parse_registration
parse_registration-words value = refl

-- Four words for one thing and four for another.
four_and_four :
    {A : Type 0} (x y : A) (a b c d e f g h : Bool)
    → (if a || (b || (c || (d || false)))
        then some x
        else (if e || (f || (g || (h || false))) then some y else none))
      ≡ (if a
          then some x
          else (if b
              then some x
              else (if c
                  then some x
                  else (if d
                      then some x
                      else (if e
                          then some y
                          else (if f
                              then some y
                              else (if g then some y else (if h then some y else none))))))))
four_and_four x y true b c d e f g h = refl
four_and_four x y false true c d e f g h = refl
four_and_four x y false false true d e f g h = refl
four_and_four x y false false false true e f g h = refl
four_and_four x y false false false false true f g h = refl
four_and_four x y false false false false false true g h = refl
four_and_four x y false false false false false false true h = refl
four_and_four x y false false false false false false false true = refl
four_and_four x y false false false false false false false false = refl

pub parse_tls-words : (value : Text) → parse_tls value ≡ find_word tls_modes (word value)
unfolding parse_tls
parse_tls-words value =
    four_and_four auto off (word value == text "auto") (word value == text "on")
      (word value == text "1") (word value == text "true") (word value == text "off")
      (word value == text "0") (word value == text "false") (word value == text "proxy")

pub switch-words : (value : Text) → switch value ≡ find_word switches (word value)
unfolding switch
switch-words value =
    four_and_four true false (word value == text "on") (word value == text "1")
      (word value == text "true") (word value == text "yes") (word value == text "off")
      (word value == text "0") (word value == text "false") (word value == text "no")

pub word-Decided :
    {A : Type 0} (table : List (Text × A)) (put : Config → A → Config) (value : Text) (c : Config)
    (o : Option A) (message : Text)
    → o ≡ find_word table (word value)
    → Decided (Means table) put value c (and_then (or_refuse o message) (λ a. inr (put c a)))
unfolding word
word-Decided table put value c o message same =
    refuse-Decided (Means table) put value c o message
      (λ a h. find_word-Means table value a (sym same ∙ h))
      (λ h. find_word-none table value (sym same ∙ h))

pub IsNumber-Decided :
    (put : Config → ℕ → Config) (name value : Text) (c : Config)
    → Decided IsNumber put value c (and_then (number name value) (λ n. inr (put c n)))
unfolding number
IsNumber-Decided put name value c =
    refuse-Decided IsNumber put value c (parse_u64 (trim value)) _ (λ a h. h)
      (some-none (parse_u64 (trim value)))

checked_mega_iff :
    (n bytes : ℕ)
    → (checked_mega n ≡ some bytes) ↔ ((bytes ≡ n * 1048576) × (bytes ≤ 18446744073709551615))
unfolding checked_mega
checked_mega_iff n bytes = ground arith

pub IsMega-Decided :
    (put : Config → ℕ → Config) (name value message : Text) (c : Config)
    → Decided IsMega put value c (
        and_then
          (number name value)
          (λ n. and_then (or_refuse (checked_mega n) message) (λ bytes. inr (put c bytes))))
unfolding number
IsMega-Decided put name value message c = go (parse_u64 (trim value)) refl
  where
    mega :
        (n : ℕ) (o : Option ℕ)
        → IsNumber value n
        → checked_mega n ≡ o
        → Decided IsMega put value c (and_then (or_refuse o message) (λ bytes. inr (put c bytes)))
    mega n (some bytes) is_n h =
        let (product, fits) = (checked_mega_iff n bytes).0 h in
        (bytes, (n, is_n, product, fits), refl)
    mega n none is_n h = λ bytes (m, is_m, product, fits).
        let same : m ≡ n = cc in cc ((checked_mega_iff n bytes).1 (rw (← same) (product, fits)))

    go :
        (o : Option ℕ)
        → parse_u64 (trim value) ≡ o
        → Decided IsMega put value c (
            and_then
              (or_refuse o (name ++ text " is not a number: " ++ value))
              (λ n. and_then (or_refuse (checked_mega n) message) (λ bytes. inr (put c bytes))))
    go none e = λ bytes (m, is_m, _, _). cc
    go (some n) e = mega n (checked_mega n) e refl

-- A number of 64 bits is its own remainder.
word_mod : (value : Text) (n : ℕ) → IsNumber value n → n % 2 ^ 64 ≡ n
word_mod value n h = omega (arith, parse_u64-le (trim value) n h)

pub connections-Decided :
    (value : Text) (c : Config)
    → Decided
        (λ v n. IsNumber v n × (0 < n))
        (λ c' n. record c' { max_connections = n })
        value
        c
        (set_max_connections value c)
unfolding number
connections-Decided value c = go (parse_u64 (trim value)) refl
  where
    let_in :
        (n : ℕ) (b : Bool)
        → IsNumber value n
        → nat_beq (n % 2 ^ 64) 0 ≡ b
        → Decided
            (λ v k. IsNumber v k × (0 < k))
            (λ c' k. record c' { max_connections = k })
            value
            c
            (if b
              then inl (text "UWUSYNC_MAX_CONNECTIONS of 0 would let nobody in")
              else inr (record c { max_connections = n % 2 ^ 64 }))
    let_in n true is_n h = λ k (is_k, some_).
        let same : k ≡ n = cc in ground (arith, h, word_mod value n is_n, same, some_)
    let_in n false is_n h =
        rw (word_mod value n is_n) (n, (is_n, ground (arith, h, word_mod value n is_n)), refl)

    go :
        (o : Option ℕ)
        → parse_u64 (trim value) ≡ o
        → Decided
            (λ v k. IsNumber v k × (0 < k))
            (λ c' k. record c' { max_connections = k })
            value
            c
            (and_then
              (or_refuse o (text "UWUSYNC_MAX_CONNECTIONS" ++ text " is not a number: " ++ value))
              (λ n.
                if nat_beq (n % 2 ^ 64) 0
                then inl (text "UWUSYNC_MAX_CONNECTIONS of 0 would let nobody in")
                else inr (record c { max_connections = n % 2 ^ 64 })))
    go none e = λ k (is_k, _). cc
    go (some n) e = let_in n (nat_beq (n % 2 ^ 64) 0) e refl

pub per_address-Decided :
    (value : Text) (c : Config)
    → Decided IsNumber
        (λ c' n. record c' { max_connections_per_address = n })
        value
        c
        (set_per_address value c)
unfolding number
per_address-Decided value c = go (parse_u64 (trim value)) refl
  where
    go :
        (o : Option ℕ)
        → parse_u64 (trim value) ≡ o
        → Decided IsNumber
            (λ c' n. record c' { max_connections_per_address = n })
            value
            c
            (and_then
              (or_refuse o
                (text "UWUSYNC_MAX_CONNECTIONS_PER_IP" ++ text " is not a number: " ++ value))
              (λ n. inr (record c { max_connections_per_address = n % 2 ^ 64 })))
    go none e = λ k is_k. cc
    go (some n) e = rw (word_mod value n e) (n, e, refl)
