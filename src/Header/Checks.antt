-- ===== src/Header/Checks.antt =====
-- When a module's header is accepted: udynlink_check_arch_tag and udynlink_validate_header of
-- udynlink/udynlink.c.
use udynlink.Prelude.{ℕ, ◌+◌, ◌%◌, ◌≤◌, ◌<◌, ◌≡◌, ◌≢◌, ◌↔◌, ◌⊎◌, arith, field}
use udynlink.Memory.{Memory, IsBytes, read16, read32}
use udynlink.Header.{
  Header, IsHeader, header_at, ok, load_invalid_sign, load_version_mismatch, check_arch_tag,
  validate_header, module_sign, loader_abi_version,
}

-- `udynlink_check_arch_tag` accepts exactly the pairs of one core family in which the module's
-- float ABI asks for no more than the host's: the reserved ABI number 3 of a module asks for
-- nothing, and a hard-float module wants a hard-float host.
pub check_arch_tag_iff :
    (mod_arch host_arch : ℕ)
    → (check_arch_tag mod_arch host_arch ≡ ok) ↔ (
        (mod_arch % 16 ≡ host_arch % 16)
        × ((field mod_arch 5 2 ≡ 0)
            ⊎ (field mod_arch 5 2 ≡ 3)
            ⊎ ((field mod_arch 5 2 ≡ 1) × (field host_arch 5 2 ≢ 0))
            ⊎ ((field mod_arch 5 2 ≡ 2) × (field host_arch 5 2 ≡ 2))))
unfolding check_arch_tag
check_arch_tag_iff mod_arch host_arch = (λ h. ground arith, λ h. ground arith)

-- `udynlink_validate_header` looks at the signature first and then at the version: its three results.
pub validate_header_lem :
    (h : Header)
    → ((validate_header h ≡ ok)
        ↔ ((h.sign ≡ module_sign) × (h.udynlink_version ≤ loader_abi_version)))
      × ((validate_header h ≡ load_invalid_sign) ↔ (h.sign ≢ module_sign))
      × ((validate_header h ≡ load_version_mismatch)
          ↔ ((h.sign ≡ module_sign) × (loader_abi_version < h.udynlink_version)))
unfolding validate_header
validate_header_lem h = ground arith

pub header_at-IsHeader : (m : Memory) (p : ℕ) → IsBytes m → IsHeader (header_at m p)
unfolding header_at read16 read32
header_at-IsHeader m p b = record {
  sign_fits = omega (arith, b p, b (p + 1), b (p + 2), b (p + 3));
  version_fits = omega (arith, b (p + 6), b (p + 6 + 1));
  lot_fits = omega (arith, b (p + 10), b (p + 10 + 1));
  rels_fits = omega (arith, b (p + 12), b (p + 12 + 1));
  flags_fit = omega (arith, b (p + 14), b (p + 14 + 1));
  symt_fits = omega (arith, b (p + 16), b (p + 16 + 1), b (p + 16 + 2), b (p + 16 + 3));
  code_fits = omega (arith, b (p + 20), b (p + 20 + 1), b (p + 20 + 2), b (p + 20 + 3));
  data_fits = omega (arith, b (p + 24), b (p + 24 + 1), b (p + 24 + 2), b (p + 24 + 3));
  bss_fits = omega (arith, b (p + 28), b (p + 28 + 1), b (p + 28 + 2), b (p + 28 + 3));
}
