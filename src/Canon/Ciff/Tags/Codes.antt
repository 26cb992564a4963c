-- ===== src/Canon/Ciff/Tags/Codes.antt =====
-- The codes of the tags, with the bits that say where a record is stored.
use libopenraw.Prelude.{
  ℕ, ◌+◌, ◌*◌, ◌%◌, ◌^◌, ◌<◌, ◌≡◌, ◌≢◌, refl, ap, ◌∙◌, bit_and, bit_and_mask, arith,
}
use libopenraw.Canon.Ciff.Tags.{
  Tag, null_record, free_bytes, colour_info1, file_description, raw_make_model, firmware_version,
  component_version, rom_operation_mode, owner_name, image_type, original_file_name,
  thumbnail_file_name, target_image_type, shutter_release_method, shutter_release_timing,
  release_setting, base_iso, exif_iso, focal_length, shot_info, colour_info2, camera_settings,
  white_sample, sensor_info, custom_functions, picture_info, canon_file_info, white_balance_table,
  colour_temperature, colour_space, raw_jpg_info, image_space, record_id, self_timer_time,
  target_distance_setting, serial_number, captured_time, image_info, flash_info, measured_ev,
  file_number, exposure_info, canon_model_id, decoder_table, serial_number_format, raw_image_data,
  jpeg_image, jpeg_thumbnail, image_description, camera_object, shooting_record, measured_info,
  camera_specification, image_props, exif_information, unknown0006, unknown0036, unknown003f,
  unknown0040, unknown0041, unknown1014, unknown1026, unknown103c, unknown107f, unknown1039,
  unknown10c0, unknown10c1, unknown10c2, unknown10aa, unknown10ad, unknown10a8, unknown10af,
  unknown1805, unknown1812, unknown1819, other, tag_code, IsDerivedTag, from_tagcode,
}

-- Every tag but the default has a code of 14 bits.
tag_code-lt : (tag : Tag) → tag ≢ other → tag_code tag < 2 ^ 14
tag_code-lt null_record h = omega arith
tag_code-lt free_bytes h = omega arith
tag_code-lt colour_info1 h = omega arith
tag_code-lt file_description h = omega arith
tag_code-lt raw_make_model h = omega arith
tag_code-lt firmware_version h = omega arith
tag_code-lt component_version h = omega arith
tag_code-lt rom_operation_mode h = omega arith
tag_code-lt owner_name h = omega arith
tag_code-lt image_type h = omega arith
tag_code-lt original_file_name h = omega arith
tag_code-lt thumbnail_file_name h = omega arith
tag_code-lt target_image_type h = omega arith
tag_code-lt shutter_release_method h = omega arith
tag_code-lt shutter_release_timing h = omega arith
tag_code-lt release_setting h = omega arith
tag_code-lt base_iso h = omega arith
tag_code-lt exif_iso h = omega arith
tag_code-lt focal_length h = omega arith
tag_code-lt shot_info h = omega arith
tag_code-lt colour_info2 h = omega arith
tag_code-lt camera_settings h = omega arith
tag_code-lt white_sample h = omega arith
tag_code-lt sensor_info h = omega arith
tag_code-lt custom_functions h = omega arith
tag_code-lt picture_info h = omega arith
tag_code-lt canon_file_info h = omega arith
tag_code-lt white_balance_table h = omega arith
tag_code-lt colour_temperature h = omega arith
tag_code-lt colour_space h = omega arith
tag_code-lt raw_jpg_info h = omega arith
tag_code-lt image_space h = omega arith
tag_code-lt record_id h = omega arith
tag_code-lt self_timer_time h = omega arith
tag_code-lt target_distance_setting h = omega arith
tag_code-lt serial_number h = omega arith
tag_code-lt captured_time h = omega arith
tag_code-lt image_info h = omega arith
tag_code-lt flash_info h = omega arith
tag_code-lt measured_ev h = omega arith
tag_code-lt file_number h = omega arith
tag_code-lt exposure_info h = omega arith
tag_code-lt canon_model_id h = omega arith
tag_code-lt decoder_table h = omega arith
tag_code-lt serial_number_format h = omega arith
tag_code-lt raw_image_data h = omega arith
tag_code-lt jpeg_image h = omega arith
tag_code-lt jpeg_thumbnail h = omega arith
tag_code-lt image_description h = omega arith
tag_code-lt camera_object h = omega arith
tag_code-lt shooting_record h = omega arith
tag_code-lt measured_info h = omega arith
tag_code-lt camera_specification h = omega arith
tag_code-lt image_props h = omega arith
tag_code-lt exif_information h = omega arith
tag_code-lt unknown0006 h = omega arith
tag_code-lt unknown0036 h = omega arith
tag_code-lt unknown003f h = omega arith
tag_code-lt unknown0040 h = omega arith
tag_code-lt unknown0041 h = omega arith
tag_code-lt unknown1014 h = omega arith
tag_code-lt unknown1026 h = omega arith
tag_code-lt unknown103c h = omega arith
tag_code-lt unknown107f h = omega arith
tag_code-lt unknown1039 h = omega arith
tag_code-lt unknown10c0 h = omega arith
tag_code-lt unknown10c1 h = omega arith
tag_code-lt unknown10c2 h = omega arith
tag_code-lt unknown10aa h = omega arith
tag_code-lt unknown10ad h = omega arith
tag_code-lt unknown10a8 h = omega arith
tag_code-lt unknown10af h = omega arith
tag_code-lt unknown1805 h = omega arith
tag_code-lt unknown1812 h = omega arith
tag_code-lt unknown1819 h = omega arith
tag_code-lt other h = absurd (h refl)

-- With the conversion that num_enum derives: a code of 16 bits whose 14 low bits are the code of a tag
-- other than the default gives that tag, wherever the record is stored, and a code whose 14 low bits
-- are of no tag gives the default.
pub from_tagcode-tag_code :
    (from_primitive : ℕ → Tag) (laws : IsDerivedTag from_primitive) (location : ℕ)
    → ((tag : Tag)
        → tag ≢ other
        → from_tagcode from_primitive (tag_code tag + location * 2 ^ 14) ≡ tag)
      × ((code : ℕ)
          → ((tag : Tag) → tag_code tag ≢ code % 2 ^ 14)
          → from_tagcode from_primitive code ≡ other)
unfolding from_tagcode
from_tagcode-tag_code from_primitive laws location = (
  λ tag h.
      let low : bit_and (tag_code tag + location * 2 ^ 14) 0x3fff ≡ tag_code tag =
        bit_and_mask 14 (tag_code tag + location * 2 ^ 14) ∙ omega (arith, tag_code-lt tag h) in
      ap from_primitive low ∙ laws.of_code tag,
  λ code none_has. ap from_primitive (bit_and_mask 14 code) ∙ laws.default (code % 2 ^ 14) none_has,
)
