-- ===== src/Lib.antt =====
-- The NTFS driver for UEFI: the parts that decide which bytes go where on the disk.
--
-- The driver (src/*.c in the repository) mounts an NTFS volume and serves EFI_SIMPLE_FILE_SYSTEM. A
-- file is a record of the $MFT whose sectors are protected by an update sequence array; the record's
-- attributes map virtual clusters to clusters of the volume by a compressed run list; clusters are
-- taken from and given back to $Bitmap; time stamps are converted for EFI_FILE_INFO. Compressed data is
-- decoded by LZNT1. The names of a directory stand in a B+ tree of index blocks. The file manager beside
-- the driver (ec/*.c) selects and compares the files of two panels, searches files and checks copies by
-- their checksums.
--
-- Prelude and its children: shared names, tests on numbers, lists by native index, signed integers,
--   bit operations, EFI_STATUS.
-- Runlist: src/ntfs_runlist.c. NtfsDecodeRunEntry is decode_run_entry, NtfsBuildRunList is
--   build_run_list, NtfsMappingPairsSize is mapping_pairs_size, NtfsEncodeRunEntry is
--   encode_run_entry; encode_runs is the loop of src/ntfs_setinfo.c that encodes a run list again. A
--   pointer into the stream is the list of bytes from there to the end of the attribute record. INT64
--   values are their bit patterns. A read behind that end is the outcome over_read, and read_fault in
--   build_run_list.
-- Time: src/ntfs_time.c. NtfsEfiConvertTime is convert_time, NtfsEfiConvertTimeToNtfs is
--   convert_time_to_ntfs.
-- Bitmap: the scans of src/ntfs_bitmap.c. NtfsScanBitmapRange is scan_bitmap_range, NtfsFirstFreeBit is
--   first_free_bit.
-- Allocator: NtfsEfiAllocateClusters is allocate_clusters and NtfsEfiFreeClusters is free_clusters, on
--   a record Vcb of the fields of NTFS_EFI_VCB that they change. It calls scan_bitmap_range; what
--   NtfsEfiReadAttr and NtfsEfiWriteAttr do on $Bitmap is the record BitmapFile.
-- Usa: src/ntfs_mft.c. NtfsUsaBounds is usa_bounds, NtfsEfiFixupRecord is fixup_record,
--   NtfsEfiUnfixupRecord is unfixup_record.
-- Mft: the cache of src/ntfs_mft.c and NtfsEfiReadFileRecord. NtfsMftCachePut is cache_put, the loop
--   over the cache is cache_get, NtfsEfiReadFileRecord is read_file_record. It calls fixup_record.
-- Disk: src/ntfs_diskio.c, that is EFI_DISK_IO_PROTOCOL, as the record DiskIo of a read and a write and
--   the record DiskLaws of what they do on a medium of a given size.
-- Attr: src/ntfs_attr.c. NtfsEfiReadAttr is read_attr and NtfsEfiWriteAttr is write_attr, on a record
--   AttrCtx for NTFS_ATTR_CTX. They call DiskIo.
-- AttrFind: the lookup of an attribute in src/ntfs_attr.c. NtfsEfiPrepareAttrCtx is prepare_attr_ctx,
--   NtfsEfiFindAttrInRecord is find_attr_in_record, NtfsEfiAttrDataLength is attr_data_length and
--   NtfsEfiFindAttribute is find_attribute, which calls read_attr for the attribute list and takes
--   NtfsEfiReadFileRecord as a function. AttrFind.Host: NtfsEfiResolveIndexHost is resolve_index_host.
-- Index: src/ntfs_btree.c, with NtfsEfiIndexHeaderOk and NtfsEfiIndexBlockOk of src/ntfs_mft.c as
--   index_header_ok and index_block_ok. NtfsEfiCompareNames is compare_names,
--   NtfsEfiSearchIndexBlock is search_index_block, NtfsEfiSearchSubNode is search_sub_node and
--   NtfsEfiFindInDirectory without DirSearch is find_in_directory from the bytes of the $INDEX_ROOT
--   on and lookup_in_directory in Index.Lookup in full. Index.Listing: NtfsCollectBlock is
--   collect_block, NtfsCollectSub is collect_sub and NtfsEfiCollectDir is collect_dir, in full
--   collect_directory. Index.Tree describes the tree of names that the bytes hold. It calls
--   fixup_record.
-- Record: the writes of src/ntfs_mft.c. NtfsEfiWriteMultiSectorRecord is write_multi_sector_record,
--   NtfsEfiWriteFileRecord is write_file_record, NtfsEfiSyncMftMirror is sync_mft_mirror. They call
--   unfixup_record, write_attr and cache_put.
-- Lznt1: src/ntfs_lznt1.c. NtfsEfiLznt1DecompressChunk is decompress_chunk and
--   NtfsEfiLznt1DecompressBuffer is decompress_buffer. Tokens describes the format by an encoder.
-- Compressed: NtfsEfiReadCompressedAttr of src/ntfs_lznt1.c is read_compressed_attr. It calls DiskIo and
--   decompress_buffer.
-- Checksum: ec/Checksum.c. Sha256Init, Sha256Update and Sha256Final are sha256_init, sha256_update and
--   sha256_final, Crc32Update is crc32_update, ChecksumFile is checksum_file over the results of the
--   reads, ChecksumSha256ToText is sha256_to_text.
-- Panel: ec/PanelOps.c. PanelOpsCompareSelect is compare_select, PanelOpsMatchMask is match_mask,
--   PanelOpsSelectByMask is select_by_mask, PanelOpsFindNext is find_next; the other functions likewise
--   under their own names.
-- Search: SearchFileContains of ec/Search.c is search_file_contains over the results of the reads, and
--   ViewerFindBytes of ec/Viewer.c is find_bytes.
--
-- Children of a part hold its lemmas and theorems; each Runs holds tests and concrete instances.
--
-- Fuel and bounds: scan_loop runs on the number of bits of its range and first_free_loop on the
-- number of bits from 16 on, and each round passes a bit; skip_words and skip_bytes run on the end
-- of the range, and each round passes 8 bits at least; size_loop runs on the length of the stream,
-- and each round takes a byte; off_bytes_from makes 7 rounds, since 8 bytes hold every INT64. The
-- loop over the years and the count of length bytes recur on the order of the natural numbers.
-- update_loop, read_loop, write_loop and compressed_loop run on the number of bytes that are left
-- and seek_forward on the number of runs; each round takes a byte or passes a run. chunk_loop runs
-- on the length of the compressed chunk, of which each item takes a byte, and buffer_loop on the
-- length of the compressed unit, of which each chunk takes three bytes. search_index_block and
-- collect_block run on the end of the block, and each entry takes a byte at least; collect_block gives
-- none where its rounds do not suffice; search_sub_node
-- and collect_sub run on the 32 levels of NTFS_MAX_INDEX_DEPTH, as the source does. find_loop,
-- list_loop and place_loop run on the number of bytes, and each record or item takes 24 at least.
--
-- Not modelled: the UEFI protocols; allocation of pool memory, which is taken to succeed; debug
-- output and call counters; the size that the LZNT1 decoder reports on an error; ChecksumEqual and
-- the opening of the file in ChecksumFile and SearchFileContains; the walk over directories in
-- ec/Search.c; the enumeration of a directory by DirSearch (NtfsEfiScanIndexBlock,
-- NtfsEfiBrowseSubNode), for which no caller asks; the other files of src/ and of ec/. The
-- allocator is modelled from the point where the reads of record 6 have succeeded, and
-- NtfsEfiAllocateClusters where the mirror of $Bitmap is as long as $Bitmap. In Mft the read of the
-- $MFT data is a function from an offset and a length to bytes, on which nothing is assumed; Record
-- instantiates it with read_attr. The $DATA of $MFTMirr in sync_mft_mirror comes from a parameter.
-- NtfsEfiReadFileRecord is a function from an index to a record in AttrFind and Index, and each
-- read of an index block takes the context of the attribute as it was found. A byte past the end of
-- a buffer, which C does not define, reads as 0 there.
pub mod Prelude
pub mod Time
pub mod Runlist
pub mod Mft
pub mod Checksum
pub mod Disk
pub mod Attr
pub mod Lznt1
pub mod Record
pub mod AttrFind
pub mod Index
pub mod Panel
pub mod Search
pub mod Compressed
pub mod Bitmap
pub mod Allocator
pub mod Usa
