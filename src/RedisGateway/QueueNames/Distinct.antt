-- ===== src/RedisGateway/QueueNames/Distinct.antt =====
-- The queues of different threads, transports and services have different names.
use pysoa.Prelude.{
  ℕ, zero, suc, ◌+◌, ◌-◌, ◌*◌, ◌/◌, ◌%◌, ◌≤◌, ◌<◌, ◌≡◌, refl, sym, ap, ◌∙◌, Bool, true, false, ◌&&◌,
  ◌||◌, [], ◌∷◌, ◌++◌, Bytes, bytes_eq, length, ltb, ◌==◌, if◌then◌else◌, arith, Bool-cases, inl,
  inr, append_assoc,
}
use pysoa.Logging.Syslog.{Text}
use pysoa.RedisGateway.QueueNames.{
  text, hex_digit, hex_digits, zeros, get_hex_thread_id, make_redis_queue_name, End,
  receive_queue_name, reply_to, queue_key, text_eq,
}

both : (a b : Bool) → a && b ≡ true → (a ≡ true) × (b ≡ true)
both a b h = ground (arith, h)

bytes_eq_sound : (a b : Bytes) → bytes_eq a b ≡ true → a ≡ b
bytes_eq_sound [] [] h = refl
bytes_eq_sound (a ∷ s) (b ∷ t) h =
    let parts = both (a == b) (bytes_eq s t) h in
    let e : a ≡ b = ground (arith, parts.0) in rw (e, bytes_eq_sound s t parts.1) refl
bytes_eq_sound [] (b ∷ t) h = absurd (ground (arith, h))
bytes_eq_sound (a ∷ s) [] h = absurd (ground (arith, h))

pub text_eq_sound : (s t : Text) → text_eq s t ≡ true → s ≡ t
text_eq_sound [] [] h = refl
text_eq_sound (a ∷ s) (b ∷ t) h =
    let parts = both (bytes_eq a b) (text_eq s t) h in
    rw (bytes_eq_sound a b parts.0, text_eq_sound s t parts.1) refl
text_eq_sound [] (b ∷ t) h = absurd (ground (arith, h))
text_eq_sound (a ∷ s) [] h = absurd (ground (arith, h))

-- the number that hexadecimal digits stand for, behind others
abbrev digit_value : Bytes → ℕ
digit_value [] = 0
digit_value (c ∷ cs) = if ltb c 58 then c - 48 else c - 87

abbrev value : Text → ℕ → ℕ
value [] n = n
value (c ∷ s) n = value s (n * 16 + digit_value c)

digit_value-hex_digit : (d : ℕ) → d < 16 → digit_value (hex_digit d) ≡ d
digit_value-hex_digit d h = ground (arith, h)

value-append : (s t : Text) (n : ℕ) → value (s ++ t) n ≡ value t (value s n)
value-append [] t n = refl
value-append (c ∷ s) t n = value-append s t (n * 16 + digit_value c)

value-hex_digits : (fuel n : ℕ) → n ≤ fuel → value (hex_digits fuel n) 0 ≡ n
value-hex_digits zero n h = omega (arith, h)
value-hex_digits (suc fuel) n h = elim (Bool-cases (n == 0)) [
  | inl e ↦ rw e (ground (arith, e))
  | inr e ↦
      rw
        (
          e,
          value-append (hex_digits fuel (n / 16)) (hex_digit (n % 16) ∷ []) 0,
          value-hex_digits fuel (n / 16) (ground (arith, e, h)),
          digit_value-hex_digit (n % 16) (omega arith),
        )
        (omega arith)
]

value-zeros : (k : ℕ) (s : Text) → value (zeros k ++ s) 0 ≡ value s 0
value-zeros zero s = refl
value-zeros (suc k) s = value-zeros k s

value-get_hex_thread_id : (thread : ℕ) → value (get_hex_thread_id thread) 0 ≡ thread
unfolding get_hex_thread_id
value-get_hex_thread_id thread =
    value-zeros (12 - length (hex_digits thread thread)) (hex_digits thread thread)
    ∙ value-hex_digits thread thread (omega arith)

pub get_hex_thread_id_injective : (a b : ℕ) → get_hex_thread_id a ≡ get_hex_thread_id b → a ≡ b
get_hex_thread_id_injective a b h =
    sym (value-get_hex_thread_id a) ∙ ap (λ s. value s 0) h ∙ value-get_hex_thread_id b

-- this character is in a text
abbrev pub has : Bytes → Text → Bool
has c [] = false
has c (d ∷ s) = bytes_eq d c || has c s

abbrev head_of : Text → Bytes
head_of [] = []
head_of (c ∷ s) = c

abbrev tail_of : Text → Text
tail_of [] = []
tail_of (c ∷ s) = s

bytes_eq_refl : (c : Bytes) → bytes_eq c c ≡ true
bytes_eq_refl [] = refl
bytes_eq_refl (b ∷ c) = ground (arith, bytes_eq_refl c)

pub has-middle : (c : Bytes) (s t : Text) → has c (s ++ c ∷ t) ≡ true
has-middle c [] t = rw (bytes_eq_refl c) refl
has-middle c (d ∷ s) t = ground (arith, has-middle c s t)

has-append : (c : Bytes) (s t : Text) → has c (s ++ t) ≡ has c s || has c t
has-append c [] t = refl
has-append c (d ∷ s) t = ground (arith, has-append c s t)

not_true : {C : Type 0} (b : Bool) → b ≡ true → b ≡ false → C
not_true b h h' = absurd (ground (arith, h, h'))

-- Texts are divided at the first place of a character in one way only, and at its last.
first_place :
    (c : Bytes) (s s' t t' : Text)
    → s ++ c ∷ t ≡ s' ++ c ∷ t'
    → has c s ≡ false
    → has c s' ≡ false
    → (s ≡ s') × (t ≡ t')
first_place c [] [] t t' e h h' = (refl, ap tail_of e)
first_place c [] (d ∷ s') t t' e h h' =
    not_true (has c (d ∷ s')) (rw (sym (ap head_of e), bytes_eq_refl c) refl) h'
first_place c (d ∷ s) [] t t' e h h' =
    not_true (has c (d ∷ s)) (rw (ap head_of e, bytes_eq_refl c) refl) h
first_place c (d ∷ s) (d' ∷ s') t t' e h h' =
    let rest = first_place c s s' t t' (ap tail_of e) (ground (arith, h)) (ground (arith, h')) in
    (rw (ap head_of e, rest.0) refl, rest.1)

last_place :
    (c : Bytes) (s s' t t' : Text)
    → s ++ c ∷ t ≡ s' ++ c ∷ t'
    → has c t ≡ false
    → has c t' ≡ false
    → (s ≡ s') × (t ≡ t')
last_place c [] [] t t' e h h' = (refl, ap tail_of e)
last_place c [] (d ∷ s') t t' e h h' = not_true (has c t) (rw (ap tail_of e) (has-middle c s' t')) h
last_place c (d ∷ s) [] t t' e h h' =
    not_true (has c t') (rw (sym (ap tail_of e)) (has-middle c s t)) h'
last_place c (d ∷ s) (d' ∷ s') t t' e h h' =
    let rest = last_place c s s' t t' (ap tail_of e) h h' in
    (rw (ap head_of e, rest.0) refl, rest.1)

append-cancel : (p s t : Text) → p ++ s ≡ p ++ t → s ≡ t
append-cancel [] s t e = e
append-cancel (c ∷ p) s t e = append-cancel p s t (ap tail_of e)

abbrev pub dot : Bytes
dot = b'.' ∷ []

abbrev pub bang : Bytes
bang = b'!' ∷ []

-- The name of the service has no '!', and the client's ID has neither '!' nor '.'.
abbrev pub IsNamed : End → Type 0
IsNamed e =
    (has bang e.service ≡ false) × (has bang e.client_id ≡ false) × (has dot e.client_id ≡ false)

regroup :
    (s i t : Text) → (((s ++ (dot ∷ [])) ++ i) ++ (bang ∷ [])) ++ t ≡ (s ++ dot ∷ i) ++ bang ∷ t
regroup s i t = rw (append_assoc s (dot ∷ []) i) (append_assoc (s ++ dot ∷ i) (bang ∷ []) t)

pub reply_to-parts :
    (e : End)
    → queue_key (reply_to e)
      ≡ text "pysoa:service."
        ++ ((e.service ++ dot ∷ e.client_id) ++ bang ∷ get_hex_thread_id e.thread)
unfolding queue_key reply_to receive_queue_name make_redis_queue_name
reply_to-parts e =
    ap (λ s. text "pysoa:service." ++ s)
      (regroup e.service e.client_id (get_hex_thread_id e.thread))

abbrev made : Text → Text → ℕ → End
made service client_id thread = record { service = service; client_id = client_id; thread = thread }

made_same : (s s' i i' : Text) (t t' : ℕ) → s ≡ s' → i ≡ i' → t ≡ t' → made s i t ≡ made s' i' t'
made_same s s' i i' t t' p q r = rw (p, q, r) refl

no_bang : (e : End) → IsNamed e → has bang (e.service ++ dot ∷ e.client_id) ≡ false
no_bang e n = rw (has-append bang e.service (dot ∷ e.client_id), n.0) n.1

-- Threads that read the same queue are the same thread of the same transport.
pub reply_to_injective :
    (e e' : End)
    → IsNamed e
    → IsNamed e'
    → queue_key (reply_to e) ≡ queue_key (reply_to e')
    → e ≡ e'
reply_to_injective e e' n n' h =
    let name = λ (e : End). (e.service ++ dot ∷ e.client_id) ++ bang ∷ get_hex_thread_id e.thread in
    let same =
      append-cancel (text "pysoa:service.") (name e) (name e')
        (sym (reply_to-parts e) ∙ h ∙ reply_to-parts e') in
    let places =
      first_place bang (e.service ++ dot ∷ e.client_id) (e'.service ++ dot ∷ e'.client_id)
        (get_hex_thread_id e.thread) (get_hex_thread_id e'.thread) same (no_bang e n)
        (no_bang e' n') in
    let names = last_place dot e.service e'.service e.client_id e'.client_id places.0 n.2 n'.2 in
    made_same e.service e'.service e.client_id e'.client_id e.thread e'.thread names.0 names.1
      (get_hex_thread_id_injective e.thread e'.thread places.1)

-- No thread reads a queue of requests.
pub reply_to-request :
    (e : End) (service : Text)
    → has bang service ≡ false
    → queue_key (make_redis_queue_name service) ≡ queue_key (reply_to e)
    → ⊥
unfolding queue_key make_redis_queue_name
reply_to-request e service n h =
    let same =
      append-cancel (text "pysoa:service.") service
        ((e.service ++ dot ∷ e.client_id) ++ bang ∷ get_hex_thread_id e.thread)
        (h ∙ reply_to-parts e) in
    not_true (has bang service)
      (rw same (has-middle bang (e.service ++ dot ∷ e.client_id) (get_hex_thread_id e.thread))) n
