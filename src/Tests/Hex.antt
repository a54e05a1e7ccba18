-- ===== src/Tests/Hex.antt =====
-- The theorems on Intel HEX, applied to a small image.
use updi_programmer.Prelude.{◌-◌, ◌^◌, ◌≡◌, refl, true, arith}
use updi_programmer.Hex.{IntelHexImage, ok, intel_hex_image_init, intel_hex_parse_line, copy_at}
use updi_programmer.Hex.Bounds.{Tracks, intel_hex_parse_line-Tracks}
use updi_programmer.Hex.Writer.{record_text, intel_hex_write}
use updi_programmer.Hex.RoundTrip.Lines.{parse_sink}
use updi_programmer.Hex.RoundTrip.File.{intel_hex_write-parse_line}
use updi_programmer.Tests.Data.{greeting}

abbrev image : IntelHexImage
image = intel_hex_image_init 64 0x8000 0xFF

image-Tracks : Tracks 0xFF image
image-Tracks = record {
  inside = omega arith;
  untouched = λ e j. refl;
  below = λ j p. refl;
  above = λ j p. refl;
}

intel_hex_parse_line-Tracks_example :
    Tracks 0xFF (intel_hex_parse_line (2 ^ 64) image (record_text 5 0x8010 0 greeting)).1
intel_hex_parse_line-Tracks_example =
    intel_hex_parse_line-Tracks 0xFF (2 ^ 64) (omega arith) (record_text 5 0x8010 0 greeting) image
      image-Tracks

intel_hex_write-parse_line_example :
    (img' : IntelHexImage) × (intel_hex_write (parse_sink (2 ^ 64)) greeting 0x8010 2 image
      ≡ (ok, img'))
    × (img'.data_at ≡ copy_at (0x8010 - 0x8000) greeting image.data_at)
    × (img'.eof_seen ≡ true)
intel_hex_write-parse_line_example =
    intel_hex_write-parse_line (2 ^ 64) 0x8010 2 greeting image
      (omega arith, (omega arith, (omega arith, (omega arith, (omega arith, tt))))) (omega arith)
      (omega arith) (omega arith) (omega arith)
