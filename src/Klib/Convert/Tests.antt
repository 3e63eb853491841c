-- ===== src/Klib/Convert/Tests.antt =====
-- The theorems on convert.c at the numbers 305 and 0xBEEF.
use zenith_os.Klib.Convert.{Buffer, uint_to_string}
use zenith_os.Klib.Convert.Laws.{Reads, IsDecimal, decimal_value, uint_to_string-Reads}

abbrev empty : Buffer
empty j = 0

uint_to_string-Reads_example : Reads 10 IsDecimal decimal_value (uint_to_string 305 empty) 305
uint_to_string-Reads_example = uint_to_string-Reads 305 empty
