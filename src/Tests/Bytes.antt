-- ===== src/Tests/Bytes.antt =====
-- The theorems about data words at concrete words.
use driver_arinc.Prelude.{ℕ, ◌+◌, ◌*◌, ◌^◌, ◌≡◌, arith}
use driver_arinc.Bytes.{arinc429_label, arinc429_sdi, arinc429_data, arinc429_ssm, arinc429_parity}
use driver_arinc.Bytes.Fields.{arinc429_fields}

arinc429_fields_example :
    let v : ℕ = 0xe1234567 in
    arinc429_label v
      + arinc429_sdi v * 2 ^ 8
      + arinc429_data v * 2 ^ 10
      + arinc429_ssm v * 2 ^ 29
      + arinc429_parity v * 2 ^ 31
    ≡ v
arinc429_fields_example = arinc429_fields 0xe1234567 (omega arith)
