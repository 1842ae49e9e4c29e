-- ===== src/Strings.antt =====
-- The strings and blocks of memory of lib/*.c, with memory as bytes. A loop that has no bound of its own
-- takes fuel, and gives `none` when that is used up: one more than the string's length is enough.
pub mod Compare
pub mod Copy
use cs503_lab.Base.{
  ℕ, zero, suc, ◌+◌, ◌-◌, ◌^◌, ◌%◌, ◌||◌, ◌&&◌, Bool, true, false, not, ◌==◌, if◌then◌else◌, Option,
  none, some, ltb, slt, sub32, put,
}

-- A `char` is signed: its value as a 32-bit pattern
abbrev pub schar : ℕ → ℕ
schar c = if ltb c 128 then c else c + (2 ^ 32 - 256)

-- `while(*str++ != '\0') len++`
pub count_chars : ℕ → (ℕ → ℕ) → ℕ → ℕ → Option ℕ
count_chars zero mem str len = none
count_chars (suc fuel) mem str len =
    let further = count_chars fuel mem (str + 1) (len + 1) in
    if mem str == 0 then some len else further

pub strlen : ℕ → (ℕ → ℕ) → ℕ → Option ℕ
strlen fuel mem str = count_chars fuel mem str 0

-- `while (*s++ && n < len) n++`; `len` bounds the loop
pub strnlen : (ℕ → ℕ) → ℕ → ℕ → ℕ
strnlen mem s zero = 0
strnlen mem s (suc len) =
    let further = strnlen mem (s + 1) len in if mem s == 0 then 0 else further + 1

pub strcmp : ℕ → (ℕ → ℕ) → ℕ → ℕ → Option ℕ
strcmp zero mem str1 str2 = none
strcmp (suc fuel) mem str1 str2 =
    let further = strcmp fuel mem (str1 + 1) (str2 + 1) in
    if mem str1 == mem str2
    then if mem str1 == 0 then some 0 else further
    else if slt (schar (mem str1)) (schar (mem str2))
    then some (2 ^ 32 - 1)
    else some 1

-- The loop ends with the two characters, or with 0 after `n` equal ones.
pub strncmp : (ℕ → ℕ) → ℕ → ℕ → ℕ → ℕ
strncmp mem s1 s2 zero = 0
strncmp mem s1 s2 (suc n) =
    let further = strncmp mem (s1 + 1) (s2 + 1) n in
    if mem s1 == mem s2
    then if mem s1 == 0 then 0 else further
    else sub32 (schar (mem s1)) (schar (mem s2))

pub memcmp : (ℕ → ℕ) → ℕ → ℕ → ℕ → ℕ
memcmp mem c1 c2 zero = 0
memcmp mem c1 c2 (suc n) =
    let further = memcmp mem (c1 + 1) (c2 + 1) n in
    if mem c1 == mem c2 then further else sub32 (mem c1) (mem c2)

-- `while ( (*tar++ = *src++) != '\0')`
pub strcpy : ℕ → (ℕ → ℕ) → ℕ → ℕ → Option (ℕ → ℕ)
strcpy zero mem tar src = none
strcpy (suc fuel) mem tar src =
    let mem1 = put mem tar (mem src) in
    let further = strcpy fuel mem1 (tar + 1) (src + 1) in
    if mem src == 0 then some mem1 else further

-- `memset`, which returns `s`, and `bzero`: the memory after
pub memset : (ℕ → ℕ) → ℕ → ℕ → ℕ → ℕ → ℕ
memset mem cp c zero = mem
memset mem cp c (suc n) = memset (put mem cp (c % 256)) (cp + 1) c n

pub bzero : (ℕ → ℕ) → ℕ → ℕ → ℕ → ℕ
bzero mem pch zero = mem
bzero mem pch (suc n) = bzero (put mem pch 0) (pch + 1) n

-- The memory after `strncpy`, which returns `s1`
pub strncpy : (ℕ → ℕ) → ℕ → ℕ → ℕ → ℕ → ℕ
strncpy mem s1 s2 zero = mem
strncpy mem s1 s2 (suc n) =
    let mem1 = put mem s1 (mem s2) in
    let further = strncpy mem1 (s1 + 1) (s2 + 1) n in
    let padded = bzero mem1 (s1 + 1) n in if mem s2 == 0 then padded else further

-- The memory after `memcpy`, which returns `s`
pub memcpy : (ℕ → ℕ) → ℕ → ℕ → ℕ → ℕ → ℕ
memcpy mem dst src zero = mem
memcpy mem dst src (suc n) = memcpy (put mem dst (mem src)) (dst + 1) (src + 1) n

-- `strchr` and `strrchr`: an address, or NULL. `c` is a character.
pub strchr : ℕ → (ℕ → ℕ) → ℕ → ℕ → Option ℕ
strchr zero mem s c = none
strchr (suc fuel) mem s c =
    let further = strchr fuel mem (s + 1) c in
    if mem s == 0
    then some (if c % 256 == mem s then s else 0)
    else if mem s == c % 256
    then some s
    else further

pub strrchr : ℕ → (ℕ → ℕ) → ℕ → ℕ → ℕ → Option ℕ
strrchr zero mem s c r = none
strrchr (suc fuel) mem s c r =
    let further = strrchr fuel mem (s + 1) c (if mem s == c % 256 then s else r) in
    if mem s == 0 then some (if c % 256 == mem s then s else r) else further

-- `memchr` looks for the end of a string, not at its count `n`.
pub memchr : ℕ → (ℕ → ℕ) → ℕ → ℕ → ℕ → Option ℕ
memchr zero mem cp c n = none
memchr (suc fuel) mem cp c n =
    let further = memchr fuel mem (cp + 1) c n in
    if mem cp == 0 then some 0 else if schar (mem cp) == c % 256 then some cp else further

-- The inner loop of `strstr`: where `cr` is at its end
pub match_from : ℕ → (ℕ → ℕ) → ℕ → ℕ → Option ℕ
match_from zero mem cq cr = none
match_from (suc fuel) mem cq cr =
    let further = match_from fuel mem (cq + 1) (cr + 1) in
    if mem cq == 0 || (mem cr == 0 || not (mem cq == mem cr)) then some cr else further

-- `if ('\0' == *cr)`
abbrev pub ends : (ℕ → ℕ) → Option ℕ → Option ℕ → Option ℕ → Option ℕ
ends mem none hit miss = none
ends mem (some cr) hit miss = if mem cr == 0 then hit else miss

pub strstr : ℕ → (ℕ → ℕ) → ℕ → ℕ → Option ℕ
strstr zero mem cs ct = none
strstr (suc fuel) mem cs ct =
    let further = strstr fuel mem (cs + 1) ct in
    let matched = ends mem (match_from (suc fuel) mem cs ct) (some cs) further in
    if mem cs == 0 then some 0 else if mem cs == mem ct then matched else further
