-- ===== src/Hash.antt =====
-- runtime/Clib/chash.c: the hash numbers of strings and integers. `unsigned long` has 64 bits, and
-- `char` is signed. A pointer is the list of the bytes from it to the end of its object.
pub mod Laws
mod Tests
use Prim.Native.Nat.{bit_xor}
use bigloo.Prelude.{
  ℕ, zero, suc, ◌+◌, ◌-◌, ◌*◌, ◌/◌, ◌%◌, ◌^◌, ◌==◌, ltb, Bool, true, false, Option, none, some,
  List, [], ◌∷◌, ◌>>=◌, if◌then◌else◌, get_elem?,
}

abbrev pub hash_random_table : List ℕ
hash_random_table =
    1 ∷ 14 ∷ 110 ∷ 25 ∷ 97 ∷ 174 ∷ 132 ∷ 119 ∷ 138 ∷ 170 ∷ 125 ∷ 118 ∷ 27 ∷ 233 ∷ 140 ∷ 51 ∷ 87
    ∷ 197 ∷ 177 ∷ 107 ∷ 234 ∷ 169 ∷ 56 ∷ 68 ∷ 30 ∷ 7 ∷ 173 ∷ 73 ∷ 188 ∷ 40 ∷ 36 ∷ 65 ∷ 49 ∷ 213
    ∷ 104 ∷ 190 ∷ 57 ∷ 211 ∷ 148 ∷ 223 ∷ 48 ∷ 115 ∷ 15 ∷ 2 ∷ 67 ∷ 186 ∷ 210 ∷ 28 ∷ 12 ∷ 181 ∷ 103
    ∷ 70 ∷ 22 ∷ 58 ∷ 75 ∷ 78 ∷ 183 ∷ 167 ∷ 238 ∷ 157 ∷ 124 ∷ 147 ∷ 172 ∷ 144 ∷ 176 ∷ 161 ∷ 141 ∷ 86
    ∷ 60 ∷ 66 ∷ 128 ∷ 83 ∷ 156 ∷ 241 ∷ 79 ∷ 46 ∷ 168 ∷ 198 ∷ 41 ∷ 254 ∷ 178 ∷ 85 ∷ 253 ∷ 237 ∷ 250
    ∷ 154 ∷ 133 ∷ 88 ∷ 35 ∷ 206 ∷ 95 ∷ 116 ∷ 252 ∷ 192 ∷ 54 ∷ 221 ∷ 102 ∷ 218 ∷ 255 ∷ 240 ∷ 82 ∷ 106
    ∷ 158 ∷ 201 ∷ 61 ∷ 3 ∷ 89 ∷ 9 ∷ 42 ∷ 155 ∷ 159 ∷ 93 ∷ 166 ∷ 80 ∷ 50 ∷ 34 ∷ 175 ∷ 195 ∷ 100 ∷ 99
    ∷ 26 ∷ 150 ∷ 16 ∷ 145 ∷ 4 ∷ 33 ∷ 8 ∷ 189 ∷ 121 ∷ 64 ∷ 77 ∷ 72 ∷ 208 ∷ 245 ∷ 130 ∷ 122 ∷ 143 ∷ 55
    ∷ 105 ∷ 134 ∷ 29 ∷ 164 ∷ 185 ∷ 194 ∷ 193 ∷ 239 ∷ 101 ∷ 242 ∷ 5 ∷ 171 ∷ 126 ∷ 11 ∷ 74 ∷ 59 ∷ 137
    ∷ 228 ∷ 108 ∷ 191 ∷ 232 ∷ 139 ∷ 6 ∷ 24 ∷ 81 ∷ 20 ∷ 127 ∷ 17 ∷ 91 ∷ 92 ∷ 251 ∷ 151 ∷ 225 ∷ 207
    ∷ 21 ∷ 98 ∷ 113 ∷ 112 ∷ 84 ∷ 226 ∷ 18 ∷ 214 ∷ 199 ∷ 187 ∷ 13 ∷ 32 ∷ 94 ∷ 220 ∷ 224 ∷ 212 ∷ 247
    ∷ 204 ∷ 196 ∷ 43 ∷ 249 ∷ 236 ∷ 45 ∷ 244 ∷ 111 ∷ 182 ∷ 153 ∷ 136 ∷ 129 ∷ 90 ∷ 217 ∷ 202 ∷ 19
    ∷ 165 ∷ 231 ∷ 71 ∷ 230 ∷ 142 ∷ 96 ∷ 227 ∷ 62 ∷ 179 ∷ 246 ∷ 114 ∷ 162 ∷ 53 ∷ 160 ∷ 215 ∷ 205
    ∷ 180 ∷ 47 ∷ 109 ∷ 44 ∷ 38 ∷ 31 ∷ 149 ∷ 135 ∷ 0 ∷ 216 ∷ 52 ∷ 63 ∷ 23 ∷ 37 ∷ 69 ∷ 39 ∷ 117 ∷ 146
    ∷ 184 ∷ 163 ∷ 200 ∷ 222 ∷ 235 ∷ 248 ∷ 243 ∷ 219 ∷ 10 ∷ 152 ∷ 131 ∷ 123 ∷ 229 ∷ 203 ∷ 76 ∷ 120
    ∷ 209 ∷ []

-- `hash_random_table[ hash ^ c ]`, of two bytes.
abbrev pub shuffle : ℕ → ℕ → Option ℕ
shuffle hash c = get_elem? hash_random_table (bit_xor hash c)

pub hash_loop : ℕ → List ℕ → Option ℕ
hash_loop hash [] = none
hash_loop hash (c ∷ p) =
    let rest = shuffle hash c >>= (λ h. hash_loop h p) in if c == 0 then some hash else rest

unfoldable pub get_hash_number : List ℕ → Option ℕ
get_hash_number string = hash_loop 0 string

pub hash_loop_len : ℕ → ℕ → List ℕ → Option ℕ
hash_loop_len hash zero p = some hash
hash_loop_len hash (suc n) [] = none
hash_loop_len hash (suc n) (c ∷ p) = shuffle hash c >>= (λ h. hash_loop_len h n p)

-- `i` goes from `start` to `len`, and the pointer from the beginning of the string.
unfoldable pub bgl_get_hash_number_len : List ℕ → ℕ → ℕ → Option ℕ
bgl_get_hash_number_len string start len = hash_loop_len 0 (len - start) string

-- `(long)c`, added to an `unsigned long`.
abbrev pub sign_extended : ℕ → ℕ
sign_extended c = if ltb c 128 then c else 2 ^ 64 - 256 + c

-- `result += (result << 3) + (long)c`
abbrev pub power_step : ℕ → ℕ → ℕ
power_step result c = (result + (result * 8 + sign_extended c)) % 2 ^ 64

pub power_loop : ℕ → List ℕ → Option ℕ
power_loop result [] = none
power_loop result (c ∷ p) =
    let rest = power_loop (power_step result c) p in if c == 0 then some result else rest

-- `result & ((1 << power) - 1)`: the mask is an `int`, so from 31 on the shift or the subtraction
-- is undefined.
abbrev pub masked : ℕ → ℕ → Option ℕ
masked result power = if ltb power 31 then some (result % 2 ^ power) else none

unfoldable pub get_hash_power_number : List ℕ → ℕ → Option ℕ
get_hash_power_number string power = do result ← power_loop 0 string; masked result power

pub power_loop_len : ℕ → List ℕ → ℕ → Option ℕ
power_loop_len result p zero = some result
power_loop_len result [] (suc n) = none
power_loop_len result (c ∷ p) (suc n) = power_loop_len (power_step result c) p n

unfoldable pub get_hash_power_number_len : List ℕ → ℕ → ℕ → Option ℕ
get_hash_power_number_len string power len = do
  result ← power_loop_len 0 string len
  masked result power

-- `while (i > 0)`: a round takes eight bits off `i`, so eight rounds serve 64 bits.
pub int_loop : ℕ → ℕ → ℕ → Option ℕ
int_loop zero hash i = if i == 0 then some hash else none
int_loop (suc fuel) hash i =
    let rest = shuffle hash (i % 256) >>= (λ h. int_loop fuel h (i / 256)) in
    if i == 0 then some hash else rest

unfoldable pub get_hash_number_from_int : ℕ → Option ℕ
get_hash_number_from_int i = int_loop 8 0 i

pub power_int_loop : ℕ → ℕ → ℕ → Option ℕ
power_int_loop zero result i = if i == 0 then some result else none
power_int_loop (suc fuel) result i =
    let rest = power_int_loop fuel ((result + (result * 8 + i % 256)) % 2 ^ 64) (i / 256) in
    if i == 0 then some result else rest

unfoldable pub get_hash_power_number_from_int : ℕ → ℕ → Option ℕ
get_hash_power_number_from_int i power = do result ← power_int_loop 8 0 i; masked result power
