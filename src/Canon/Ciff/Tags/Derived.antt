-- ===== src/Canon/Ciff/Tags/Derived.antt =====
-- A conversion that does what num_enum documents: the first of the tags that has the code.
use libopenraw.Prelude.{ℕ, ◌≡◌, ◌≢◌, refl, List, [], ◌∷◌, ◌==◌, ne→==, if◌then◌else◌}
use libopenraw.Canon.Ciff.Tags.{
  Tag, null_record, free_bytes, colour_info1, file_description, raw_make_model, firmware_version,
  component_version, rom_operation_mode, owner_name, image_type, original_file_name,
  thumbnail_file_name, target_image_type, shutter_release_method, shutter_release_timing,
  release_setting, base_iso, exif_iso, focal_length, shot_info, colour_info2, camera_settings,
  white_sample, sensor_info, custom_functions, picture_info, canon_file_info, white_balance_table,
  colour_temperature, colour_space, raw_jpg_info, image_space, record_id, self_timer_time,
  target_distance_setting, serial_number, captured_time, image_info, flash_info, measured_ev,
  file_number, exposure_info, canon_model_id, decoder_table, serial_number_format, raw_image_data,
  jpeg_image, jpeg_thumbnail, image_description, camera_object, shooting_record, measured_info,
  camera_specification, image_props, exif_information, unknown0006, unknown0036, unknown003f,
  unknown0040, unknown0041, unknown1014, unknown1026, unknown103c, unknown107f, unknown1039,
  unknown10c0, unknown10c1, unknown10c2, unknown10aa, unknown10ad, unknown10a8, unknown10af,
  unknown1805, unknown1812, unknown1819, other, tag_code, IsDerivedTag,
}

abbrev all_tags : List Tag
all_tags =
    null_record ∷ free_bytes ∷ colour_info1 ∷ file_description ∷ raw_make_model ∷ firmware_version
    ∷ component_version ∷ rom_operation_mode ∷ owner_name ∷ image_type ∷ original_file_name
    ∷ thumbnail_file_name ∷ target_image_type ∷ shutter_release_method ∷ shutter_release_timing
    ∷ release_setting ∷ base_iso ∷ exif_iso ∷ focal_length ∷ shot_info ∷ colour_info2
    ∷ camera_settings ∷ white_sample ∷ sensor_info ∷ custom_functions ∷ picture_info
    ∷ canon_file_info ∷ white_balance_table ∷ colour_temperature ∷ colour_space ∷ raw_jpg_info
    ∷ image_space ∷ record_id ∷ self_timer_time ∷ target_distance_setting ∷ serial_number
    ∷ captured_time ∷ image_info ∷ flash_info ∷ measured_ev ∷ file_number ∷ exposure_info
    ∷ canon_model_id ∷ decoder_table ∷ serial_number_format ∷ raw_image_data ∷ jpeg_image
    ∷ jpeg_thumbnail ∷ image_description ∷ camera_object ∷ shooting_record ∷ measured_info
    ∷ camera_specification ∷ image_props ∷ exif_information ∷ unknown0006 ∷ unknown0036
    ∷ unknown003f ∷ unknown0040 ∷ unknown0041 ∷ unknown1014 ∷ unknown1026 ∷ unknown103c
    ∷ unknown107f ∷ unknown1039 ∷ unknown10c0 ∷ unknown10c1 ∷ unknown10c2 ∷ unknown10aa
    ∷ unknown10ad ∷ unknown10a8 ∷ unknown10af ∷ unknown1805 ∷ unknown1812 ∷ unknown1819 ∷ other ∷ []

abbrev first_tag : List Tag → ℕ → Tag
first_tag [] code = other
first_tag (t ∷ ts) code = if tag_code t == code then t else first_tag ts code

first_tag-default :
    (ts : List Tag) (code : ℕ) → ((tag : Tag) → tag_code tag ≢ code) → first_tag ts code ≡ other
first_tag-default [] code h = refl
first_tag-default (t ∷ ts) code h = rw (ne→== (tag_code t) code (h t)) (first_tag-default ts code h)

abbrev pub tag_of_code : ℕ → Tag
tag_of_code code = first_tag all_tags code

tag_of_code-tag_code : (tag : Tag) → tag_of_code (tag_code tag) ≡ tag
tag_of_code-tag_code null_record = refl
tag_of_code-tag_code free_bytes = refl
tag_of_code-tag_code colour_info1 = refl
tag_of_code-tag_code file_description = refl
tag_of_code-tag_code raw_make_model = refl
tag_of_code-tag_code firmware_version = refl
tag_of_code-tag_code component_version = refl
tag_of_code-tag_code rom_operation_mode = refl
tag_of_code-tag_code owner_name = refl
tag_of_code-tag_code image_type = refl
tag_of_code-tag_code original_file_name = refl
tag_of_code-tag_code thumbnail_file_name = refl
tag_of_code-tag_code target_image_type = refl
tag_of_code-tag_code shutter_release_method = refl
tag_of_code-tag_code shutter_release_timing = refl
tag_of_code-tag_code release_setting = refl
tag_of_code-tag_code base_iso = refl
tag_of_code-tag_code exif_iso = refl
tag_of_code-tag_code focal_length = refl
tag_of_code-tag_code shot_info = refl
tag_of_code-tag_code colour_info2 = refl
tag_of_code-tag_code camera_settings = refl
tag_of_code-tag_code white_sample = refl
tag_of_code-tag_code sensor_info = refl
tag_of_code-tag_code custom_functions = refl
tag_of_code-tag_code picture_info = refl
tag_of_code-tag_code canon_file_info = refl
tag_of_code-tag_code white_balance_table = refl
tag_of_code-tag_code colour_temperature = refl
tag_of_code-tag_code colour_space = refl
tag_of_code-tag_code raw_jpg_info = refl
tag_of_code-tag_code image_space = refl
tag_of_code-tag_code record_id = refl
tag_of_code-tag_code self_timer_time = refl
tag_of_code-tag_code target_distance_setting = refl
tag_of_code-tag_code serial_number = refl
tag_of_code-tag_code captured_time = refl
tag_of_code-tag_code image_info = refl
tag_of_code-tag_code flash_info = refl
tag_of_code-tag_code measured_ev = refl
tag_of_code-tag_code file_number = refl
tag_of_code-tag_code exposure_info = refl
tag_of_code-tag_code canon_model_id = refl
tag_of_code-tag_code decoder_table = refl
tag_of_code-tag_code serial_number_format = refl
tag_of_code-tag_code raw_image_data = refl
tag_of_code-tag_code jpeg_image = refl
tag_of_code-tag_code jpeg_thumbnail = refl
tag_of_code-tag_code image_description = refl
tag_of_code-tag_code camera_object = refl
tag_of_code-tag_code shooting_record = refl
tag_of_code-tag_code measured_info = refl
tag_of_code-tag_code camera_specification = refl
tag_of_code-tag_code image_props = refl
tag_of_code-tag_code exif_information = refl
tag_of_code-tag_code unknown0006 = refl
tag_of_code-tag_code unknown0036 = refl
tag_of_code-tag_code unknown003f = refl
tag_of_code-tag_code unknown0040 = refl
tag_of_code-tag_code unknown0041 = refl
tag_of_code-tag_code unknown1014 = refl
tag_of_code-tag_code unknown1026 = refl
tag_of_code-tag_code unknown103c = refl
tag_of_code-tag_code unknown107f = refl
tag_of_code-tag_code unknown1039 = refl
tag_of_code-tag_code unknown10c0 = refl
tag_of_code-tag_code unknown10c1 = refl
tag_of_code-tag_code unknown10c2 = refl
tag_of_code-tag_code unknown10aa = refl
tag_of_code-tag_code unknown10ad = refl
tag_of_code-tag_code unknown10a8 = refl
tag_of_code-tag_code unknown10af = refl
tag_of_code-tag_code unknown1805 = refl
tag_of_code-tag_code unknown1812 = refl
tag_of_code-tag_code unknown1819 = refl
tag_of_code-tag_code other = refl

pub tag_of_code-IsDerivedTag : IsDerivedTag tag_of_code
tag_of_code-IsDerivedTag = record {
  of_code = tag_of_code-tag_code;
  default = first_tag-default all_tags;
}
