-- ===== src/Tiff.antt =====
-- src/tiff.rs: the compression schemes of a raw image. The modules below are the container.
pub mod Exif
pub mod Entry
pub mod Dir

pub data Compression : Type 0 where
  unknown uncompressed lzw jpeg l_jpeg deflate go_pro arw nikon_pack pentax_pack : Compression
  panasonic_raw1 nikon_quantized panasonic_raw2 panasonic_raw3 panasonic_raw4 : Compression
  dng_lossy jepg_xl custom olympus : Compression
