-- ===== src/Tests/Output.antt =====
-- Runs of the formatted output.
use new_wiv_os.Base.{◌-◌, ◌^◌, ℕ, ◌≡◌, refl, arith, true, false, [], ◌∷◌, some}
use new_wiv_os.Base.Run.{Returns}
use new_wiv_os.Print.Calls.{sprintf, char_at, sprintf_lem}
use new_wiv_os.Strings.Text.{isdigit}
use new_wiv_os.Print.{digits_loop, ntoa_long, Sink}
use new_wiv_os.Print.Numbers.{number, digits_loop-number}
use new_wiv_os.Print.Format.{word, vsnprintf_internal}

digits_loop-number_example : number 16 (digits_loop 32 0xBEEF 16 []) ≡ 0xBEEF
unfolding number
digits_loop-number_example =
    digits_loop-number 32 0xBEEF 16 [] (omega arith) (omega arith) (omega arith)

abbrev sized : Sink
sized = record { has_data = true; bytes = λ i. 0; current = 0; size = 8 }

-- printf("%4d|%x", -7, 255)
minus_seven :
    vsnprintf_internal
      (0x25 ∷ b'4' ∷ b'd' ∷ b'|' ∷ 0x25 ∷ b'x' ∷ [])
      (word (2 ^ 64 - 7) ∷ word 255 ∷ [])
    ≡ some (b' ' ∷ b' ' ∷ b'-' ∷ b'7' ∷ b'|' ∷ b'F' ∷ b'F' ∷ 0 ∷ [])
unfolding vsnprintf_internal isdigit ntoa_long
minus_seven = refl

-- sprintf(buffer, "hi")
sprintf_lem_example :
    Returns
      (sprintf true
        (λ i. 9)
        (b'h' ∷ b'i' ∷ [])
        []
        (record { locked = false; locked2 = false; sent = [] }))
      λ r q.
        ((i : ℕ) → r.0 i ≡ char_at (b'h' ∷ b'i' ∷ 0 ∷ []) 0 (λ i. 9) i)
        × (r.1 ≡ (false, 3))
        × (q ≡ record { locked = false; locked2 = false; sent = [] })
unfolding vsnprintf_internal
sprintf_lem_example =
    sprintf_lem (λ i. 9) (b'h' ∷ b'i' ∷ []) [] (b'h' ∷ b'i' ∷ 0 ∷ [])
      (record { locked = false; locked2 = false; sent = [] }) refl (omega arith) refl
