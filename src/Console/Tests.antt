-- ===== src/Console/Tests.antt =====
-- kernel/common.c: runs of `printf`.
use Prim.Native.Char.{code}
use Prim.Native.String.{String}
use risc_v_os.Base.{ℕ, ◌-◌, ◌^◌, ◌≡◌, refl, some, arith, List, [], ◌∷◌, ◌⊎◌}
use risc_v_os.Console.{
  string, word, printf, print_num, print_pointer, pointer_digits, scale, emit, directive,
  args_after,
}
use risc_v_os.Console.Decimal.{decode, Natural, Negative, decode-print_num}

abbrev codes : String → List ℕ
codes String.[] = []
codes (String.◌∷◌ c s) = code c ∷ codes s

print_mixed :
    printf
      (codes "pid=%d sp=0x%x %s%%!")
      (word (2 ^ 32 - 42) ∷ word 0x8020_00ff ∷ string (codes "ok") ∷ [])
    ≡ some (codes "pid=-42 sp=0x802000ff ok%%!")
unfolding printf print_num print_pointer pointer_digits scale emit directive args_after
print_mixed = refl

decode-print_num_example :
    (text : List ℕ) × (print_num (2 ^ 32 - 2026) ≡ some text)
    × (decode text ≡ 2 ^ 32 - 2026)
    × (Natural (2 ^ 32 - 2026) text ⊎ Negative (2 ^ 32 - 2026) text)
decode-print_num_example = decode-print_num (2 ^ 32 - 2026) (omega arith) (omega arith)
