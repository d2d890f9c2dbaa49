-- ===== src/Services/Replies.antt =====
-- What the memory services make of the replies of any device, right or wrong.
use pi86_rp.Services.{
  Service, after_service, ◌>>=◌, answer, caught, attempt, build, memory_request, read_chunk,
  read_loop, read_memory, ServiceClient, Answer, answered, failed,
}
use pi86_rp.Common.{
  ℕ, zero, suc, ◌+◌, ◌-◌, ◌≤◌, min, ◌≡◌, refl, sym, ap, ◌∙◌, inl, inr, [], arith, ltb, ltb→lt,
  Bool-cases, Bytes, length, length-append, value_error, Result, ok, err,
}
use pi86_rp.Memory.{memory_read_request, parse_memory_read}
use pi86_rp.Memory.Read.{parse_memory_read_sound}
use pi86_rp.Client.{Exchange}

-- A method that answered: its first part answered, and so did the rest.
after_service-answered :
    {W A B : Type 0} (first : Result (Answer A) × ServiceClient W) (f : A → Service W B) {b : B}
    {after : ServiceClient W}
    → after_service f first ≡ (ok (answered b), after)
    → (a : A) × (middle : ServiceClient W) × (first ≡ (ok (answered a), middle))
      × (f a middle ≡ (ok (answered b), after))
after_service-answered (ok (answered a), middle) f h = (a, middle, refl, h)
after_service-answered (ok (failed e), middle) f h = cc
after_service-answered (err e, middle) f h = cc

>>=-answered :
    {W A B : Type 0} (m : Service W A) (f : A → Service W B) (client : ServiceClient W) {b : B}
    {after : ServiceClient W}
    → (m >>= f) client ≡ (ok (answered b), after)
    → (a : A) × (middle : ServiceClient W) × (m client ≡ (ok (answered a), middle))
      × (f a middle ≡ (ok (answered b), after))
>>=-answered m f client h = after_service-answered (m client) f h

answer-answered :
    {W A : Type 0} (client : ServiceClient W) {a b : A} {after : ServiceClient W}
    → answer a client ≡ (ok (answered b), after)
    → a ≡ b
answer-answered client h = cc

caught-answered : {A : Type 0} (r : Result A) {a : A} → caught r ≡ ok (answered a) → r ≡ ok a
caught-answered (ok a) h = cc
caught-answered (err (value_error text numbers)) h = cc
caught-answered (err e) h = ground arith

attempt-answered :
    {W A : Type 0} (r : Result A) (client : ServiceClient W) {a : A} {after : ServiceClient W}
    → attempt r client ≡ (ok (answered a), after)
    → r ≡ ok a
attempt-answered r client h =
    caught-answered r (ap (λ (p : Result (Answer _) × ServiceClient _). p.0) h)

module _ {W L : Type 0} (exchange : Exchange W L) (on_activity : W → W) where
  read_chunk-length :
      (client after : ServiceClient W) (address len : ℕ) (content longer : Bytes)
      → read_chunk exchange on_activity address len content client ≡ (ok (answered longer), after)
      → length longer ≡ length content + min 40 (len - length content)
  unfolding read_chunk
  read_chunk-length client after address len content longer h =
      let size = min 40 (len - length content) in
      let make = memory_read_request (address + length content) size in
      let (request, c1, built, h1) = >>=-answered (build make) _ client h in
      let (reply, c2, _, h2) = >>=-answered (memory_request exchange on_activity request) _ c1 h1 in
      let (chunk, c3, parsed, h3) =
        >>=-answered (attempt (parse_memory_read reply request)) _ c2 h2 in
      let (l, _, _, _) =
        parse_memory_read_sound (address + length content) size client.sequence.value request reply
          chunk (attempt-answered (make client.sequence.value) client built)
          (attempt-answered (parse_memory_read reply request) c2 parsed) in
      ap length (sym (answer-answered c3 h3))
      ∙ length-append content chunk
      ∙ ap (λ (n : ℕ). length content + n) l

  read_loop-length :
      (fuel : ℕ) (client after : ServiceClient W) (address len : ℕ) (content b : Bytes)
      → length content ≤ len
      → len ≤ length content + fuel
      → read_loop exchange on_activity fuel address len content client ≡ (ok (answered b), after)
      → length b ≡ len
  unfolding read_loop
  read_loop-length zero client after address len content b small enough h =
      ap length (sym (answer-answered client h)) ∙ omega arith
  read_loop-length (suc fuel) client after address len content b small enough h =
      elim (Bool-cases (ltb (length content) len)) [
        | inl more ↦
            let next = read_loop exchange on_activity fuel address len in
            let (longer, middle, got, rest) =
              >>=-answered (read_chunk exchange on_activity address len content) next client
                (rw more at h) in
            let l = read_chunk-length client middle address len content longer got in
            read_loop-length fuel middle after address len longer b (omega (arith, ltb→lt _ _ more))
              (omega (arith, ltb→lt _ _ more)) rest
        | inr done ↦ ap length (sym (answer-answered client (rw done at h))) ∙ ground arith
      ]

  -- Whatever the device replies, bytes that a read returns are as many as were asked for.
  read_memory-length :
      (client after : ServiceClient W) (address len : ℕ) (b : Bytes)
      → read_memory exchange on_activity address len client ≡ (ok (answered b), after)
      → length b ≡ len
  unfolding read_memory
  read_memory-length client after address len b h =
      read_loop-length len client after address len [] b (omega arith) (omega arith) h
