-- ===== src/Canon/Ciff/Tags.antt =====
-- src/canon/crw/ciff.rs: the tags of CIFF records.
pub mod Codes
pub mod Derived
use libopenraw.Prelude.{ℕ, ◌≡◌, ◌≢◌, ◌==◌, if◌then◌else◌, bit_and}

pub data Tag : Type 0 where
  null_record free_bytes colour_info1 file_description raw_make_model firmware_version : Tag
  component_version rom_operation_mode owner_name image_type original_file_name : Tag
  thumbnail_file_name target_image_type shutter_release_method shutter_release_timing : Tag
  release_setting base_iso exif_iso focal_length shot_info colour_info2 camera_settings : Tag
  white_sample sensor_info custom_functions picture_info canon_file_info : Tag
  white_balance_table colour_temperature colour_space raw_jpg_info image_space record_id : Tag
  self_timer_time target_distance_setting serial_number captured_time image_info flash_info : Tag
  measured_ev file_number exposure_info canon_model_id decoder_table serial_number_format : Tag
  raw_image_data jpeg_image jpeg_thumbnail image_description camera_object shooting_record : Tag
  measured_info camera_specification image_props exif_information unknown0006 unknown0036 : Tag
  unknown003f unknown0040 unknown0041 unknown1014 unknown1026 unknown103c unknown107f : Tag
  unknown1039 unknown10c0 unknown10c1 unknown10c2 unknown10aa unknown10ad unknown10a8 : Tag
  unknown10af unknown1805 unknown1812 unknown1819 other : Tag

-- `u16::from`, the discriminant of a tag
abbrev pub tag_code : Tag → ℕ
tag_code null_record = 0x0000
tag_code free_bytes = 0x0001
tag_code colour_info1 = 0x0032
tag_code file_description = 0x0805
tag_code raw_make_model = 0x080a
tag_code firmware_version = 0x080b
tag_code component_version = 0x080c
tag_code rom_operation_mode = 0x080d
tag_code owner_name = 0x0810
tag_code image_type = 0x0815
tag_code original_file_name = 0x0816
tag_code thumbnail_file_name = 0x0817
tag_code target_image_type = 0x100a
tag_code shutter_release_method = 0x1010
tag_code shutter_release_timing = 0x1011
tag_code release_setting = 0x1016
tag_code base_iso = 0x101c
tag_code exif_iso = 0x1028
tag_code focal_length = 0x1029
tag_code shot_info = 0x102a
tag_code colour_info2 = 0x102c
tag_code camera_settings = 0x102d
tag_code white_sample = 0x1030
tag_code sensor_info = 0x1031
tag_code custom_functions = 0x1033
tag_code picture_info = 0x1038
tag_code canon_file_info = 0x1093
tag_code white_balance_table = 0x10a9
tag_code colour_temperature = 0x10ae
tag_code colour_space = 0x10b4
tag_code raw_jpg_info = 0x10b5
tag_code image_space = 0x1803
tag_code record_id = 0x1804
tag_code self_timer_time = 0x1806
tag_code target_distance_setting = 0x1807
tag_code serial_number = 0x180b
tag_code captured_time = 0x180e
tag_code image_info = 0x1810
tag_code flash_info = 0x1813
tag_code measured_ev = 0x1814
tag_code file_number = 0x1817
tag_code exposure_info = 0x1818
tag_code canon_model_id = 0x1834
tag_code decoder_table = 0x1835
tag_code serial_number_format = 0x183b
tag_code raw_image_data = 0x2005
tag_code jpeg_image = 0x2007
tag_code jpeg_thumbnail = 0x2008
tag_code image_description = 0x2804
tag_code camera_object = 0x2807
tag_code shooting_record = 0x3002
tag_code measured_info = 0x3003
tag_code camera_specification = 0x3004
tag_code image_props = 0x300a
tag_code exif_information = 0x300b
tag_code unknown0006 = 0x0006
tag_code unknown0036 = 0x0036
tag_code unknown003f = 0x003f
tag_code unknown0040 = 0x0040
tag_code unknown0041 = 0x0041
tag_code unknown1014 = 0x1014
tag_code unknown1026 = 0x1026
tag_code unknown103c = 0x103c
tag_code unknown107f = 0x107f
tag_code unknown1039 = 0x1039
tag_code unknown10c0 = 0x10c0
tag_code unknown10c1 = 0x10c1
tag_code unknown10c2 = 0x10c2
tag_code unknown10aa = 0x10aa
tag_code unknown10ad = 0x10ad
tag_code unknown10a8 = 0x10a8
tag_code unknown10af = 0x10af
tag_code unknown1805 = 0x1805
tag_code unknown1812 = 0x1812
tag_code unknown1819 = 0x1819
tag_code other = 0xffff

pub data RecordType : Type 0 where
  byte ascii word d_word byte2 heap1 heap2 unknown : RecordType

-- `Tag::record_type`
unfoldable pub record_type : Tag → RecordType
record_type tag =
    let format = bit_and (tag_code tag) 0x3800 in
    if format == 0x0000
    then byte
    else (if format == 0x0800
        then ascii
        else (if format == 0x1000
            then word
            else (if format == 0x1800
                then d_word
                else (if format == 0x2000
                    then byte2
                    else (if format == 0x2800
                        then heap1
                        else (if format == 0x3000 then heap2 else unknown))))))

-- What the num_enum crate derives for `Tag`: the tag of a code, and the default where there is none.
pub record IsDerivedTag (from_primitive : ℕ → Tag) : Type 0 where
  pub of_code : (tag : Tag) → from_primitive (tag_code tag) ≡ tag
  pub default : (code : ℕ) → ((tag : Tag) → tag_code tag ≢ code) → from_primitive code ≡ other

-- `Tag::from_tagcode`
unfoldable pub from_tagcode : (ℕ → Tag) → ℕ → Tag
from_tagcode from_primitive tagcode = from_primitive (bit_and tagcode 0x3fff)
