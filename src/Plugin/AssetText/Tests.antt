-- ===== src/Plugin/AssetText/Tests.antt =====
-- Amounts that are printed exactly, rounded, and cut.
use gxmis_plugin.Common.{◌*◌, ◌+◌, ◌^◌, ◌≤◌, ◌<◌, ◌≡◌, refl, arith, Bytes, codes, ◌++◌}
use gxmis_plugin.Common.Int.{pos, negsuc}
use gxmis_plugin.Common.Decimal.{decimal, digits_before}
use gxmis_plugin.Common.Find.{span}
use gxmis_plugin.Utils.Hex.Decimal.{value}
use gxmis_plugin.Plugin.AssetText.{combine_asset, exponent, float_of, fraction, nearest}
use gxmis_plugin.Plugin.AssetText.Text.{combine_asset-near}

combine_asset-near_example :
    (digits : Bytes) × (combine_asset (codes "EOS") 4 (pos 30000)
      ≡ digits ++ fraction 4 ++ codes " " ++ codes "EOS")
    × (2 ^ 24 * value 0 digits ≤ 2 ^ 24 * 30000 + 30000)
    × (2 ^ 24 * 30000 ≤ 2 ^ 24 * value 0 digits + 30000)
    × (30000 < 2 ^ 24 → value 0 digits ≡ 30000)
combine_asset-near_example =
    combine_asset-near (codes "EOS") 4 30000 (ground arith) (ground arith) (ground arith)
      (refl, (refl, (refl, tt)))

printed : combine_asset (codes "EOS") 4 (pos 30000) ≡ codes "30000.0000 EOS"
unfolding combine_asset float_of exponent nearest decimal digits_before span
printed = refl

-- 2^24 + 1 is printed as 2^24, and 2^24 + 3 as 2^24 + 4.
rounded_down : combine_asset (codes "EOS") 1 (pos 16777217) ≡ codes "16777216.0 EOS"
unfolding combine_asset float_of exponent nearest decimal digits_before span
rounded_down = refl

rounded_up : combine_asset (codes "EOS") 1 (pos 16777219) ≡ codes "16777220.0 EOS"
unfolding combine_asset float_of exponent nearest decimal digits_before span
rounded_up = refl

no_decimals : combine_asset (codes "EOS") 0 (negsuc 4) ≡ codes "-5 EOS"
unfolding combine_asset float_of exponent nearest decimal digits_before span
no_decimals = refl
