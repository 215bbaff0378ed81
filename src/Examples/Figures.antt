-- ===== src/Examples/Figures.antt =====
-- Texts of the operating system, and rows of a text.
use gorigin.Prelude.{◌+◌, ◌-◌, ◌%◌, ◌^◌, ◌<◌, ◌≡◌, ◌⊎◌, refl, [], ◌∷◌, ◌++◌, Bytes}
use gorigin.Wire.{bytes_of}
use gorigin.Monitor.{mem_stat, cpu_sums}
use gorigin.Monitor.Sums.{mem_stat-sum}
use gorigin.Texts.{str_split_contain, keep_contain, split_from, contains_part}
use gorigin.Logs.Escapes.{begins}

-- A total of 9, of which 4 are free.
abbrev meminfo : Bytes
meminfo = bytes_of "MemTotal: 9 kB" ++ (10 ∷ bytes_of "MemFree: 4 kB")

mem_stat-sum_example :
    ((mem_stat meminfo).total < 2 ^ 63)
    × (((mem_stat meminfo).used
            + (mem_stat meminfo).free
            + (mem_stat meminfo).buff
            + (mem_stat meminfo).cache)
          % 2 ^ 64
        ≡ (mem_stat meminfo).total)
    × (((mem_stat meminfo).total
          < (mem_stat meminfo).free + (mem_stat meminfo).buff + (mem_stat meminfo).cache)
        ⊎ ((mem_stat meminfo).used
            ≡ (mem_stat meminfo).total
              - ((mem_stat meminfo).free + (mem_stat meminfo).buff + (mem_stat meminfo).cache)))
mem_stat-sum_example = mem_stat-sum meminfo

-- A processor that works for the system only, in its third figure, counts as idle.
system_is_idle : cpu_sums (0 ∷ 0 ∷ 0 ∷ 100 ∷ 0 ∷ 0 ∷ 0 ∷ 0 ∷ 0 ∷ 0 ∷ 0 ∷ []) ≡ (0, 100)
unfolding cpu_sums
system_is_idle = refl

-- The rows of "ab,c,b" with a "b".
rows_with_b :
    str_split_contain (97 ∷ 98 ∷ 44 ∷ 99 ∷ 44 ∷ 98 ∷ []) (44 ∷ []) (98 ∷ [])
    ≡ (97 ∷ 98 ∷ []) ∷ (98 ∷ []) ∷ []
unfolding str_split_contain keep_contain split_from contains_part begins
rows_with_b = refl
