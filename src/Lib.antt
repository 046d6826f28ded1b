-- ===== src/Lib.antt =====
-- The host programs of the repository's ZYNQ designs, in C, each of which maps device registers and
-- memory into its address space and drives the hardware through them.
--
-- Parts and files:
-- - Common: what the models share. Common/Program has the programs' results (`Outcome`: returned,
--   exited or crashed, with the state) and the calls of printf as values; Common/Memory has byte
--   memories with 16-bit and 32-bit little-endian accesses; Common/Bytes has parts of a memory as
--   sequences; Common/Int and Common/Bits have two's complement and the bits of a register;
--   Common/Text has C strings.
-- - Lia: the command line program of the lock-in amplifier, projects/gen_test/src. The directories
--   rxchan16_test, txchan16_test and txchan16_test2 hold the same text.
--     Lia/Board: the global pointers and descriptors of zynq_io.c as a record, with the memory behind
--     each mapping; dev_read and dev_write, which crash outside a mapping. A write to sts leaves its
--     registers as they are, since the core behind it (cores/axi_sts_register_v1_0) takes no writes.
--     Lia/Registers: rd_reg_value, wr_reg_value, rd_cfg_status, get_memory_size, cfg_init, sts_init.
--     Lia/Init: set_frequency, set_kconstant, set_xvalue, init_system, and the init_system of
--     projects/rxchan16_test2/src/zynq_io.c (init_system_samples).
--     Lia/Params: the globals and parse_param of lia_rp.c, branch by branch.
--     Lia/Main: show_usage, the sampling loop and main of lia_rp.c, which calls all of the above.
--     Lia/Main/Gain, Frequency, Status, Streaming and Initialise are about whole runs, with -s kp and
--     ki, -s fv, -a, -o and -i.
-- - Dma: the five programs dma_test.c of projects/counter_dma, dma_test, dma_lago, dma_lauri and
--   dma_loopback. Dma/Device has the register accesses, over an engine that is a parameter;
--   Dma/Status has the status print and the two waiting loops. Dma/Programs is the main function and
--   the memdump of counter_dma, Dma/Lago those of dma_lago and of dma_test, which differ in the address
--   of one mapping, and Dma/Loopback the main function of dma_loopback and dma_lauri. Dma/Writes has the
--   lemmas on what a program writes to the engine. Dma/Buffers is projects/dma_lauri/dma_test_h.c,
--   Dma/Module the kernel module projects/dma_loopback/axidma.c, and Dma/Uio the program
--   projects/dma_lauri/otro_dma.c, which reaches the engine through /dev/uio0.
-- - Recorder: the programs that record ADC samples. Recorder/Rig has the mapped registers and RAM
--   with their accesses and the printing loop; Recorder/Plain is projects/adc_recorder,
--   Recorder/Trigger is projects/adc_recorder_trigger, with the wait for the oscilloscope and the
--   window of samples in the ring, and Recorder/Lago is projects/lago.
-- - Gpio: projects/gpio_led_test/gpio_led_test.c. Gpio/Panel has the mapped peripherals and their
--   access; Gpio/Bars doBarGraph; Gpio/Sine factorial, sine and do_sine_sample; Gpio/Exerciser the
--   loop and main; Gpio/Itoa and Gpio/Strcat the two string functions.
-- - Stream: the server projects/adc_test/server/adc-test-server.c. Stream/Child is a round of the
--   child's loop (projects/dac_player/adc-recorder.c has the same loop), Stream/Server the parent
--   and a step relation of both with the hardware, the calls that can fail and a signal,
--   Stream/Server/Spec the specification that it refines, Stream/Server/History what the RAM held at
--   each copy of a run, and Stream/Server/Connection what a client is sent. Stream/Child/Halves has the
--   sequence of the halves, for the server and for the recorder of Dac/Capture. Stream/Client has the
--   two clients of projects/adc_test/client, and Stream/Client/Run is about the loop of the first.
-- - Dac: projects/dac_player. Dac/Factor has the argument and the register that takes it, Dac/Player is
--   dac-player.c, Dac/Recorder the parent process of adc-recorder.c, and Dac/Capture its two
--   processes while it records, as a step relation, with Dac/Capture/File for the whole file
--   and Dac/Capture/Stop for the end. A copy
--   by memcpy is one step there, as in Stream/Server.
-- - Tests: the theorems at concrete inputs.
--
-- Parameters: the hardware (the words of the status register that a sampling run sees, one for
-- each round until the interrupt signal; the DMA engine as a state with reads and writes); the
-- system calls open, mmap and the sysfs files (`Os`); the conversions and the float arithmetic of
-- the C library (`Libc`), with what a conversion of a float to int32_t gives beyond its range;
-- what fopen does with a null pointer for its mode, and the process's memory, in Dma/Uio (`Calls`,
-- `Process`); the network of the clients (`Net`); the operations of `double` (`Doubles`); the
-- macros that dma_test_h.c does not define (`Macros`); the functions of the kernel that axidma.c
-- calls (`Kernel`); what the RAM holds when a recorder prints it.
--
-- Fuel: the waiting loops of Dma/Status run on fuel, and `none` means that it ran out. Any fuel
-- above the number of rounds after which the engine's status is complete is enough. So does the
-- wait of Recorder/Trigger: fuel above the number of the first read that sees the oscilloscope
-- stopped. The loop of Dac/Player needs more rounds than the file has bytes, its wait as many
-- reads as may pass before there is space. The wait of Dma/Buffers runs on fuel too, which only
-- bounds a run. itoa needs 33 rounds, which its definition gives, and strcat more than the length
-- of each string. The endless loops of hardware_exerciser, of the server and of its clients have
-- no fuel: they run for the inputs given.
--
-- Not modelled: the copies of the vendor's xaxidma_example_sg_poll.c; the FPGA cores and the build
-- scripts; of projects/rxchan16_test2 all but init_system, since the rest is the text of gen_test
-- and does not compile there (CFG_KP_OFFSET and mem_init, which it uses, are commented out).
-- Freeing descriptors (`close`) and the time that `sleep` takes have no counterpart. A SIGINT to
-- the server is one to its parent process alone, and its child can end by SIGPIPE; for the
-- recorder of projects/dac_player the child can end, too.
pub mod Common
pub mod Lia
pub mod Dma
pub mod Recorder
pub mod Gpio
pub mod Stream
pub mod Dac
mod Tests
