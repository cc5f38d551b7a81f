-- ===== src/Client/Identifiers.antt =====
-- `packet_identifier_generator_t`: a std::uint16_t that goes round and leaves 0 out.
use mqtt.Base.{ℕ, zero, suc, ◌+◌, ◌%◌, ◌^◌, ◌<◌, ◌≡◌, refl, arith, ◌==◌, if◌then◌else◌}
use mqtt.Client.{Client}

-- The identifier, and the next state of the generator.
unfoldable pub increment : ℕ → ℕ
increment next = if (next + 1) % 2 ^ 16 == 0 then 1 else (next + 1) % 2 ^ 16

unfoldable pub next_packet_identifier : Client → ℕ × Client
unfolding increment
next_packet_identifier c =
    (c.next_identifier, record c { next_identifier = increment c.next_identifier })

-- The state of the generator after some calls.
unfoldable pub after_calls : ℕ → ℕ → ℕ
after_calls zero next = next
after_calls (suc n) next = increment (after_calls n next)

pub increment_bounds : (next : ℕ) → 0 < increment next × increment next < 2 ^ 16
unfolding increment
increment_bounds next = ground arith

-- After n calls the generator of packet identifiers is at n % 65535 + 1: it gives 1 to 65535 in
-- turn and never 0.
pub after_calls-cycle : (n : ℕ) → after_calls n 1 ≡ n % 65535 + 1
unfolding after_calls increment
after_calls-cycle zero = refl
after_calls-cycle (suc n) = ground (arith, after_calls-cycle n)
