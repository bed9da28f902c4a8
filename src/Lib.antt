-- ===== src/Lib.antt =====
-- upx-killer unpacks PE and ELF images that UPX has packed. A user interface (upx-killer) sends a job
-- to a host process over a pipe (upx-killer-contracts/Protocol/EngineHost); in the host a coordinator
-- (upx-killer-contracts/Application/Coordination) picks the backend that recognizes the target; a
-- backend (upx-killer-engine) parses the file, plans its run, captures the process at the original
-- entry point, rebuilds the image and publishes it.
--
-- Which file models what:
-- - Contracts.antt: the types that all parts share (upx-killer-contracts/Core and
--   Application/Backends/IUnpackBackend.h).
-- - Protocol.antt: EngineHostCodec.cpp. Wire has PutU32 to GetString, Enums the numbers of the
--   enumerations, Messages the payloads, Codec Encode, DecodeHeader and DecodePayload. A reader is a
--   function from the rest of the bytes to a value and what is left of them.
-- - Coordination.antt: UnpackCoordinator; `choose` is the loop over the backends of `Execute`.
-- - Elf.antt: upx-killer-engine/Core/ELF/Parsing. Header has the part of `Parse` up to the loop over the
--   program headers, Parser the loop and the rest, Classifier Internal/ElfImageTypeClassifier.cpp.
-- - Pe.antt: the part for PE images, in upx-killer-engine/Core/PE and Application/PE. Headers and Parser
--   have Parsing/PeParser.cpp, Directories the data directories that the analyses read, Metadata
--   Metadata/EmbeddedOriginalPeHeader.cpp, Discovery OepDiscovery (UpxOepLocator.cpp and
--   Internal/UpxTailTransferAnalyzer.cpp), Relocations Relocations/RelocationReconstructor.cpp, where
--   Relocations/Directory.antt reads a directory the way a loader does, Rebasing
--   Rebasing/PeFileRebaser.cpp, Staging Rebasing/NoSourceRelocations, Sections
--   Sections/SectionLayoutRebuilder.cpp, Imports the types of Imports/ImportTypes.h; Capabilities and
--   Plan have PeBackendCapabilities and PeExecutionPlanFactory.
-- - Pe/Jobs.antt and Pe/Jobs/Answers.antt: PeJobContractTranslator.cpp. Beside Answers, Preparation has
--   PeTargetPreparationUseCase and PeTargetProbe, Capture PeRuntimeCaptureUseCase, Reconstruction
--   PeImageReconstructionUseCase, and Backend chains them as PeUnpackBackend.cpp does; what each of
--   them promises is in Prepared, Probed, Placed, Runs, Imported, Reconstructed, Outcomes, Delivered, Stages and
--   Reported.
-- - Dumping.antt: upx-killer-engine/Core/Dumping/ProcessImageDumper.cpp.
-- - Breakpoints.antt:
--   upx-killer-engine/Infrastructure/Windows/Debugging/SoftwareBreakpointSet.cpp.
-- - Publication.antt: upx-killer-engine/Application/Artifacts/ArtifactPublicationUseCase.cpp, for any
--   store; Publication/Windows.antt has
--   upx-killer-engine/Infrastructure/Windows/Storage/WindowsArtifactStore.cpp, Publication/Storage.antt the
--   contract of a store, Publication/Promises.antt that the store on Windows keeps it, and
--   Publication/Stored.antt what a publication with the store on Windows does.
-- - Common.antt: lists and tests on native numbers, fallible chains, little-endian reads.
--
-- Numbers are natural numbers; where the code adds 64-bit addresses that may wrap around, the model
-- takes the remainder (`add64`, `sub64` of Dumping). Byte strings, paths and `std::string` are lists of
-- bytes. Fallible functions return an `Option` or a `Result` with the source's error.
--
-- Parameters: the memory reader of the dump, the calls of the file system and the validator of a
-- publication, the reader of a target, the capture of one run, the backends of the coordinator,
-- `std::sort` of the PE capabilities, and where the fields of the structures of <Windows.h> stand
-- (WindowsHeaders of Pe/Headers.antt, WindowsDirectories of Pe/Directories.antt). Their promises are
-- hypotheses: IsQuery of Dumping/Total.antt, IsFileSystem and IsOrdinary of
-- Publication/Promises.antt, HasFields of Pe/Rebasing/Rebased.antt and HasBaseFirst of
-- Pe/Staging/Fields.antt, that a validation, which runs the image, leaves the output file and the
-- temporary one alone, that a capture leaves the output file alone and does not report the stage
-- Completed, that a file consists of bytes, and that the sort keeps the members. The passes of the
-- repository that have no model yet, the discovery of imports, the fixer and the validator of a
-- rebuilt image, are the interface ReconstructionPasses of Pe/Jobs/Reconstruction.antt, of which
-- nothing is supposed.
--
-- Fuel and bounds: the dump has a round for each byte of the image, and each round advances; the loops
-- over headers, sections, messages and breakpoints run for the count that stands before them. The
-- destructor of the breakpoints has a round for each breakpoint, the relocation directory is written
-- with a round for each slot and walked with a round for each byte, and each of these rounds takes at
-- least one of them. The scan of the stub has a round for each byte of it, the searches of Sections for
-- the TLS directory and for the pages a round for each byte of the image; in an image smaller than the
-- directory the bound of the broad scan wraps around, and the model says that the loop does not end.
--
-- Not modelled: exceptions and failed allocations behind `catch (...)`; UTF-8 conversion of paths; the
-- reconstruction of imports, the analysis of exports, the fixer and the validator of PE images, the
-- reconstruction of ELF images and the jobs of the ELF backend; the inspection of binaries; the store of
-- the Linux host, whose Promote removes the final file before it renames the other one; the calls of
-- ptrace, the debugging interface of Windows, WSL and pipes; and the user interface, settings and
-- updates.
pub mod Common
pub mod Contracts
pub mod Protocol
pub mod Coordination
pub mod Elf
pub mod Pe
pub mod Dumping
pub mod Breakpoints
pub mod Publication
