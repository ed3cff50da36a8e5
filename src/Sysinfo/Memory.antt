-- ===== src/Sysinfo/Memory.antt =====
-- The memory figures of crates/abora-sysinfo/src/linux.rs.
use abora_framework.Common.{
  ℕ, ◌*◌, ◌≤◌, ◌<◌, ◌≡◌, refl, subst, arith, List, [], Option, none, some, ok, ok-injective, Text,
  codes, lines, Bool-cases, leb, leb→le, ◌⊎◌, inl, inr,
}
use abora_framework.Common.Decimal.{u64_limit}
use abora_framework.Sysinfo.{
  MemoryInfo, from_fields, meminfo_fields, get_field, kib, times_kib, memory_of, memory_or_error,
  parse_meminfo,
}

-- The figures fit 64 bits, and no more is used than there is.
pub record IsSound (m : MemoryInfo) : Type 0 where
  pub total_fits : m.total_bytes < u64_limit
  pub used_fits : m.used_bytes ≤ m.total_bytes
  pub swap_fits : m.swap_used_bytes ≤ m.swap_total_bytes

memory_of-IsSound : (fields : List (Text × ℕ)) (total : ℕ) → IsSound (memory_of fields total)
unfolding memory_of from_fields
memory_of-IsSound fields total = record {
  total_fits = omega arith;
  used_fits = omega arith;
  swap_fits = omega arith;
}

-- Whatever the kernel's file says, the memory figures that are read fit 64 bits, and no more memory or
-- swap is in use than there is; and the total is 1024 times the figure of the file, which has one,
-- where that fits 64 bits.
pub parse_meminfo-IsSound :
    (text : Text) (m : MemoryInfo)
    → parse_meminfo text ≡ ok m
    → IsSound m
      × (n : ℕ) × (get_field (codes "MemTotal") (meminfo_fields (lines text) []) ≡ some n)
      × ((u64_limit ≤ n * kib) ⊎ (m.total_bytes ≡ n * kib))
unfolding parse_meminfo
parse_meminfo-IsSound text m h =
    go (get_field (codes "MemTotal") (meminfo_fields (lines text) [])) refl h
  where
    exact : (n : ℕ) → (u64_limit ≤ n * kib) ⊎ (times_kib n ≡ n * kib)
    exact n = elim (Bool-cases (leb u64_limit (n * kib))) [
      | inl e ↦ inl (leb→le u64_limit (n * kib) e)
      | inr e ↦ inr (ground (arith, e))
    ]

    go :
        (o : Option ℕ)
        → get_field (codes "MemTotal") (meminfo_fields (lines text) []) ≡ o
        → memory_or_error (meminfo_fields (lines text) []) o ≡ ok m
        → IsSound m
          × (n : ℕ) × (get_field (codes "MemTotal") (meminfo_fields (lines text) []) ≡ some n)
          × ((u64_limit ≤ n * kib) ⊎ (m.total_bytes ≡ n * kib))
    go none e k = cc
    go (some n) e k =
        let is = ok-injective k in
        (
          subst IsSound is (memory_of-IsSound (meminfo_fields (lines text) []) n),
          n,
          e,
          subst (λ (x : MemoryInfo). (u64_limit ≤ n * kib) ⊎ (x.total_bytes ≡ n * kib)) is
              (unfold memory_of from_fields in exact n),
        )
