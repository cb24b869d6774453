-- ===== src/Examples/Secrets.antt =====
-- The theorems on secrets and on the options of calls at concrete values.
use autobahn_cpp_aw.Common.{ℕ, ◌+◌, ◌*◌, pos, ◌≡◌, refl, arith, length}
use autobahn_cpp_aw.Exception.{ok}
use autobahn_cpp_aw.AuthUtils.{generate_wcs, AllAlphanumeric, generate_wcs-AllAlphanumeric}
use autobahn_cpp_aw.Options.{CallOptions, call_options_object}
use autobahn_cpp_aw.Options.Exchange.{
  convert_call_options, pack_call_options, new_call_options,
  convert_call_options-call_options_object,
}
use autobahn_cpp_aw.Sample.{tree_number, sample_msgpack}

-- a sequence of numbers in the place of `rand`
abbrev numbers : ℕ → ℕ × ℕ
numbers s = (s * 7919, s + 1)

generate_wcs-AllAlphanumeric_example :
    (length (generate_wcs numbers (pos 14) 5).0 ≡ 14)
    × AllAlphanumeric numbers (generate_wcs numbers (pos 14) 5).0
generate_wcs-AllAlphanumeric_example = generate_wcs-AllAlphanumeric numbers (pos 14) 5

abbrev patient : CallOptions
patient = record { timeout = pos 1000 }

convert_call_options-call_options_object_example :
    (convert_call_options tree_number (call_options_object patient) new_call_options ≡ ok patient)
    × (convert_call_options tree_number (pack_call_options patient) new_call_options ≡ ok patient)
convert_call_options-call_options_object_example =
    convert_call_options-call_options_object tree_number refl (λ k v. refl) (λ n h. refl)
      (λ n h. refl) patient 1000 refl (omega arith)
