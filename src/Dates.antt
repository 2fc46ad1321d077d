-- ===== src/Dates.antt =====
-- The parts of JavaScript's Date and number printing that the hub uses. A Date is its milliseconds
-- since 1970, none before.
use qr_blockchain_anticounte.Prelude.{
  ℕ, zero, suc, ◌+◌, ◌-◌, ◌*◌, ◌/◌, ◌%◌, Str, codes, [], ◌∷◌, ◌++◌, ltb, leb, if◌then◌else◌,
}

abbrev pub day_ms : ℕ
day_ms = 24 * 60 * 60 * 1000

-- decimal digits, the fuel bounding their number
unfoldable pub digits_of : ℕ → ℕ → Str → Str
digits_of zero n acc = acc
digits_of (suc f) n acc =
    let more = digits_of f (n / 10) ((n % 10 + b'0') ∷ acc) in
    if ltb n 10 then (n + b'0') ∷ acc else more

-- `String(n)`; the number of digits is below n + 1
unfoldable pub decimal : ℕ → Str
unfolding digits_of
decimal n = digits_of (suc n) n []

-- The proleptic Gregorian date of a day: year, month, day of the month.
unfoldable pub civil : ℕ → ℕ × ℕ × ℕ
civil days =
    let z = days + 719468 in
    let doe = z % 146097 in
    let yoe = (doe + doe / 36524 - doe / 1460 - doe / 146096) / 365 in
    let doy = doe + yoe / 100 - (365 * yoe + yoe / 4) in
    let mp = (5 * doy + 2) / 153 in
    let day = doy - (153 * mp + 2) / 5 + 1 in
    let month = (if ltb mp 10 then mp + 3 else mp - 9) in
    (yoe + z / 146097 * 400 + (if leb month 2 then 1 else 0), month, day)

abbrev two : ℕ → Str
two n = (n / 10 % 10 + b'0') ∷ (n % 10 + b'0') ∷ []

-- `toISOString().slice(0, 10)`, for years of four digits
unfoldable pub iso_date : ℕ → Str
unfolding civil
iso_date ms =
    let (y, m, d) = civil (ms / day_ms) in
    two (y / 100) ++ (two y ++ (codes "-" ++ (two m ++ (codes "-" ++ two d))))

-- `${getUTCFullYear()}-${getUTCMonth() + 1}-${getUTCDate()}`
unfoldable pub utc_day : ℕ → Str
unfolding civil decimal
utc_day ms =
    let (y, m, d) = civil (ms / day_ms) in
    decimal y ++ (codes "-" ++ (decimal m ++ (codes "-" ++ decimal d)))
