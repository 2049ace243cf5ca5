-- ===== src/HostFs/Replies/Answers.antt =====
-- Every complete command is answered, once.
use psplink.Base.{
  ℕ, ◌≡◌, refl, subst, ap, ◌∙◌, Bool, true, false, not, List, [], ◌∷◌, ◌++◌, Option, none, some,
  Text, length, arith, ltb, ◌==◌, ◌&&◌, ◌||◌, inl, inr, Bool-cases, if◌then◌else◌,
}
use psplink.HostFs.Host.{Sys, done, failed, Os}
use psplink.HostFs.Server.{
  Server, Serve, Output, hello_response, response, position, payload, Payload, payload_size, pure,
  ◌>>=◌, send, system, case_option, case_sys,
}
use psplink.HostFs.Wire.{
  extralen_of, hostfs_cmd, is_positive, received, read_data, with_data, with_input, answer,
  answer_with,
}
use psplink.HostFs.Replies.Reads.{Returns}
use psplink.HostFs.Replies.Silent.{Silent, Silent-gets, Silent-pure, silent_rules}

-- What is written for a command, the newest first: a response and, where its `extralen` is not 0, a
-- payload of that length, unless the response could not be sent.
pub data IsAnswer (os : Os) : ℕ → List Output → Type 0 where
  alone : {command : ℕ} (res : ℕ) → IsAnswer os command (response command 0 res ∷ [])
  cut_off :
      {command : ℕ} (extralen res : ℕ) (w : os.World)
      → (os.bulk_write 16 w).0 ≡ false
      → IsAnswer os command (response command extralen res ∷ [])
  followed :
      {command : ℕ} (extralen res : ℕ) (p : Payload)
      → payload_size p ≡ extralen
      → IsAnswer os command (payload p ∷ response command extralen res ∷ [])
  moved : (res ofs : ℕ) → IsAnswer os (hostfs_cmd 6) (position res ofs ∷ [])
  greeted : IsAnswer os (hostfs_cmd 0) (hello_response ∷ [])

-- The second state has one answer more than the first.
abbrev pub Answered : {os : Os} → ℕ → Server os → Server os → Type 0
Answered {os} command s s' = (xs : List Output) × (s'.sent ≡ xs ++ s.sent) × IsAnswer os command xs

pub record Answers {os : Os} (command : ℕ) (m : Serve os Unit) : Type 0 where
  pub at : (s : Server os) → Answered command s (m s).1

not_positive : (n : ℕ) → ltb 0 n ≡ false → 0 ≡ n
not_positive n h = ground arith

module _ {os : Os} {c : ℕ} where
  pub Answers-answer : (res : ℕ) → Answers {os = os} c (answer c res)
  unfolding answer ◌>>=◌ send pure
  Answers-answer res = record { at = λ s. (response c 0 res ∷ [], refl, alone res) }

  -- A payload that is as long as announced.
  pub Answers-answer_with :
      (extralen res : ℕ) (p : Payload)
      → payload_size p ≡ extralen
      → Answers {os = os} c (answer_with c extralen res p)
  unfolding answer_with ◌>>=◌ send pure
  Answers-answer_with extralen res p size = record {
    at = λ s. elim (Bool-cases (os.bulk_write 16 s.world).0) [
      | inr lost ↦
          rw (answer_with, lost)
            (response c extralen res ∷ [], refl, cut_off extralen res s.world lost)
      | inl okay ↦ elim (Bool-cases (ltb 0 extralen)) [
        | inl some_data ↦
            rw (answer_with, okay, some_data)
              (payload p ∷ response c extralen res ∷ [], refl, followed extralen res p size)
        | inr none_there ↦
            rw (answer_with, okay, none_there)
              (
                response c extralen res ∷ [],
                refl,
                subst (λ n. IsAnswer os c (response c n res ∷ []))
                    (not_positive extralen none_there) (alone res),
              )
      ]
    ];
  }

  pub Answers-if :
      (b : Bool) (m n : Serve os Unit) → Answers c m → Answers c n → Answers c (if b then m else n)
  Answers-if true m n km kn = km
  Answers-if false m n km kn = kn

module _ {os : Os} {A : Type 0} {c : ℕ} where
  pub Answers-bind :
      (m : Serve os A) (f : A → Serve os Unit)
      → Silent m
      → ((a : A) → Answers c (f a))
      → Answers c (m >>= f)
  unfolding ◌>>=◌
  Answers-bind m f km kf = record {
    at = λ s.
        let (a, s') = m s in
        let (xs, e, is) = (kf a).at s' in (xs, e ∙ ap (λ sent. xs ++ sent) (km.at s), is);
  }

  -- With what the first action is known to return.
  pub Answers-Returns :
      (Q : A → Type 0) (m : Serve os A) (f : A → Serve os Unit)
      → Silent m
      → Returns Q m
      → ((a : A) → Q a → Answers c (f a))
      → Answers c (m >>= f)
  unfolding ◌>>=◌
  Answers-Returns Q m f km km' kf = record {
    at = λ s.
        let q : Q (m s).0 = km'.at s in
        let (a, s') = m s in
        let (xs, e, is) = (kf (m s).0 q).at s' in (xs, e ∙ ap (λ sent. xs ++ sent) (km.at s), is);
  }

  pub Answers-case_option :
      (o : Option A) (m : Serve os Unit) (f : A → Serve os Unit)
      → Answers c m
      → ((a : A) → Answers c (f a))
      → Answers c (case_option o m f)
  unfolding case_option
  Answers-case_option none m f km kf = km
  Answers-case_option (some a) m f km kf = kf a

  pub Answers-case_sys :
      (r : Sys A) (m : ℕ → Serve os Unit) (f : A → Serve os Unit)
      → ((e : ℕ) → Answers c (m e))
      → ((a : A) → Answers c (f a))
      → Answers c (case_sys r m f)
  unfolding case_sys
  Answers-case_sys (failed e) m f km kf = km e
  Answers-case_sys (done a) m f km kf = kf a

-- All the data behind a command came.
abbrev pub exact : Option Text → ℕ → Bool
exact none len = false
exact (some data_read) len = length data_read == len

-- One answer to a command that is complete, and nothing for one that is not.
abbrev pub Outcome : {os : Os} → Bool → ℕ → Server os → Server os → Type 0
Outcome true command s s' = Answered command s s'
Outcome false command s s' = s'.sent ≡ s.sent

module _ {os : Os} {c : ℕ} where
  received-Outcome :
      (got : Option Text) (len : ℕ) (rest : Text → Serve os Unit) (s s₀ : Server os)
      → s.sent ≡ s₀.sent
      → ((t : Text) → Answers c (rest t))
      → Outcome (exact got len) c s₀ (received got len rest s).1
  unfolding pure
  received-Outcome none len rest s s₀ e k = e
  received-Outcome (some t) len rest s s₀ e k = elim (Bool-cases (length t == len)) [
    | inl same ↦ rw same (let (xs, e', is) = (k t).at s in (xs, e' ∙ ap (λ sent. xs ++ sent) e, is))
    | inr differs ↦ rw differs e
  ]

  read_data-Outcome :
      (len : ℕ) (rest : Text → Serve os Unit) (s : Server os)
      → ((t : Text) → Answers c (rest t))
      → Outcome (exact (os.bulk_read len s.world).0 len) c s (read_data len rest s).1
  unfolding read_data ◌>>=◌ system
  read_data-Outcome len rest s k = received-Outcome (os.bulk_read len s.world).0 len rest _ s refl k

  -- The data of a command that must have some.
  pub with_data-Outcome :
      (size : ℕ) (cmd : Text) (rest : Text → Serve os Unit) (s : Server os)
      → ((t : Text) → Answers c (rest t))
      → Outcome
          (length cmd == size
            && (not (extralen_of cmd == 0)
                && exact (os.bulk_read (extralen_of cmd) s.world).0 (extralen_of cmd)))
          c
          s
          (with_data size cmd rest s).1
  unfolding with_data pure
  with_data-Outcome size cmd rest s k = elim (Bool-cases (length cmd == size)) [
    | inr wrong ↦ rw wrong refl
    | inl right ↦ elim (Bool-cases (extralen_of cmd == 0)) [
      | inl empty ↦ rw (right, empty) refl
      | inr some_data ↦ rw (right, some_data) (read_data-Outcome (extralen_of cmd) rest s k)
    ]
  ]

  -- The data of a command that may have none.
  pub with_input-Outcome :
      (size : ℕ) (cmd : Text) (rest : Serve os Unit) (s : Server os)
      → Answers c rest
      → Outcome
          (length cmd == size
            && (not (is_positive (extralen_of cmd))
                || exact (os.bulk_read (extralen_of cmd) s.world).0 (extralen_of cmd)))
          c
          s
          (with_input size cmd rest s).1
  unfolding with_input pure
  with_input-Outcome size cmd rest s k = elim (Bool-cases (length cmd == size)) [
    | inr wrong ↦ rw wrong refl
    | inl right ↦ elim (Bool-cases (is_positive (extralen_of cmd))) [
      | inl some_data ↦
          rw (right, some_data) (read_data-Outcome (extralen_of cmd) (λ _. rest) s (λ _. k))
      | inr empty ↦ rw (right, empty) (k.at s)
    ]
  ]

  -- A command without data.
  pub sized-Outcome :
      (b : Bool) (m : Serve os Unit) (s : Server os)
      → Answers c m
      → Outcome b c s ((if b then m else pure tt) s).1
  unfolding pure
  sized-Outcome true m s k = k.at s
  sized-Outcome false m s k = refl

pub ruleset answer_rules =
    (silent_rules, Answers-answer, Answers-if, Answers-bind, Answers-case_option, Answers-case_sys)
